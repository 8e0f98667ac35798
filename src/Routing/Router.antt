-- ===== src/Routing/Router.antt =====
-- The router of deterministic-routing-sim/route_sim.py (`Router`). sqlglot's parse is outside the
-- repository: a query is what the router reads off the tree.
use sdw_lab_benchmarks.Prelude.{
  ℕ, ◌+◌, ◌-◌, String, Bool, true, false, not, ◌&&◌, ◌||◌, Option, none, some, List, [], ◌∷◌,
  lookup, contains, to_set, length, map, any_of, leb, eqb, string_eq, if◌then◌else◌,
}
use sdw_lab_benchmarks.Prelude.Text.{is_in}
use sdw_lab_benchmarks.Prelude.Edits.{to_lower}
use sdw_lab_benchmarks.Routing.Winners.{
  Engine, Shape, join_3table, join_6table, aggjoin, correlated_exists, dim_enrichment, large_large,
  two_stream_aggjoin, ioc_semijoin, scan_aggregation, point_lookup, Tier, hot, cold, winners,
  winners_at, table_rows, views,
}
use sdw_lab_benchmarks.Routing.Dates.{find_date, ordinal, now_ref}

-- A comparison of the tree: the columns in it, those below a function or a cast, the names of its
-- functions, and its SQL text.
pub record Comparison : Type 0 where
  pub columns : List String
  pub wrapped_columns : List String
  pub func_names : List String
  pub sql : String

-- A parsed query: its comparisons and tables in the order of `find_all`, the number of its joins, and
-- which of the other nodes the tree has.
pub record Query : Type 0 where
  pub comparisons : List Comparison
  pub tables : List String
  pub joins : ℕ
  pub has_agg_func : Bool
  pub has_group : Bool
  pub has_exists : Bool
  pub has_distinct : Bool
  pub has_having : Bool
  pub has_order : Bool
  pub has_limit : Bool

abbrev pub time_columns : List String
time_columns = "ts" ∷ "_time" ∷ "__time" ∷ "time" ∷ "ingest_time" ∷ "event_time" ∷ "day" ∷ []

-- `_is_time_col`
unfoldable pub is_time_col : String → Bool
unfolding contains to_lower
is_time_col name = contains time_columns (to_lower name)

-- `_time_col_wrapped`
unfoldable pub time_col_wrapped : Comparison → Bool
unfolding is_time_col
time_col_wrapped cmp = any_of is_time_col cmp.wrapped_columns

abbrev pub dynamic_names : List String
dynamic_names = "now" ∷ "current_timestamp" ∷ "current_date" ∷ "today" ∷ "getdate" ∷ "sysdate" ∷ []

-- `_has_dynamic_func`
unfoldable pub has_dynamic_func : Comparison → Bool
unfolding contains to_lower is_in
has_dynamic_func cmp =
    any_of (λ nm. contains dynamic_names (to_lower nm)) cmp.func_names
    || any_of (λ k. is_in k (to_lower cmp.sql)) ("now(" ∷ "current_timestamp" ∷ "current_date" ∷ [])

-- `HOT_WINDOW_DAYS`
abbrev pub hot_window_days : ℕ
hot_window_days = 7

-- `"hot" if 0 <= depth_days <= HOT_WINDOW_DAYS else "cold"`, for the ordinals of now and the date
unfoldable pub depth_tier : ℕ → ℕ → Tier
depth_tier now date = if leb date now && leb (now - date) hot_window_days then hot else cold

-- The tier of a text without "interval"; no date in it, or none of the calendar, is deep history.
unfoldable pub date_tier : String → Tier
unfolding find_date ordinal depth_tier
date_tier s = elim (find_date s) [
  | none ↦ cold
  | some w ↦ elim (ordinal w) [
    | none ↦ cold
    | some date ↦ elim (ordinal now_ref) [ none ↦ cold | some now ↦ depth_tier now date ]
  ]
]

-- `_window_tier`
unfoldable pub window_tier : Comparison → Tier
unfolding to_lower is_in date_tier
window_tier cmp =
    let s = to_lower cmp.sql in
    if is_in "interval" s
    then if any_of (λ u. is_in u s) ("year" ∷ "month" ∷ "week" ∷ []) then cold else hot
    else date_tier s

-- What `time_tier` decides; `fallback` is "default".
pub data Decided : Type 0 where
  decided : Tier → Decided
  fallback : Decided

-- The tier of a comparison with a time column.
unfoldable pub compared_tier : Comparison → Decided
unfolding time_col_wrapped has_dynamic_func window_tier
compared_tier cmp =
    if time_col_wrapped cmp
    then fallback
    else if has_dynamic_func cmp
    then fallback
    else decided (window_tier cmp)

-- `time_tier`: the first comparison with a time column decides.
unfoldable pub time_tier : List Comparison → Decided
unfolding is_time_col compared_tier
time_tier [] = fallback
time_tier (cmp ∷ cmps) =
    let rest = time_tier cmps in if any_of is_time_col cmp.columns then compared_tier cmp else rest

unfoldable pub table_names : Query → List String
unfolding to_lower
table_names q = map to_lower q.tables

-- The shape of the first table that is a view.
unfoldable pub view_shape : List String → Option Shape
unfolding lookup
view_shape [] = none
view_shape (t ∷ tables) =
    let rest = view_shape tables in elim (lookup t views) [ none ↦ rest | some v ↦ some v.0 ]

-- `shape` by the structure of the query
unfoldable pub tree_shape : Query → Shape
unfolding contains to_set table_names
tree_shape q =
    let tables = to_set (table_names q) [] in
    let has_agg = q.has_agg_func || q.has_group in
    let is_topn_agg = q.has_having || (q.has_group && q.has_order && q.has_limit) in
    if q.has_exists
    then correlated_exists
    else if leb 4 q.joins || leb 5 (length tables)
    then join_6table
    else if eqb q.joins 2 || eqb (length tables) 3 || eqb (length tables) 4
    then if is_topn_agg then aggjoin else join_3table
    else if eqb q.joins 1
    then if has_agg && q.has_distinct
      then two_stream_aggjoin
      else if contains tables "iocs"
      then ioc_semijoin
      else if contains tables "dim_host"
      then dim_enrichment
      else large_large
    else if q.has_limit && not has_agg && eqb q.joins 0
    then point_lookup
    else scan_aggregation

-- `shape`; the router resolves views where it reads the catalog.
unfoldable pub shape_of : Bool → Query → Shape
unfolding view_shape table_names tree_shape
shape_of false q = tree_shape q
shape_of true q = elim (view_shape (table_names q)) [ none ↦ tree_shape q | some s ↦ s ]

-- `scan_rows`
unfoldable pub scan_rows : Bool → List String → ℕ
unfolding lookup
scan_rows resolve_views [] = 0
scan_rows resolve_views (t ∷ tables) =
    let rest = scan_rows resolve_views tables in
    let base : ℕ = elim (lookup t table_rows) [ none ↦ 100000 | some n ↦ n ] in
    let here : ℕ = elim (lookup t views) [
      | none ↦ base
      | some v ↦ if resolve_views then v.1 else 1
    ] in
    here + rest

-- `winners[0]`
unfoldable pub first_engine : List Engine → Option Engine
first_engine [] = none
first_engine (e ∷ es) = some e

pub record Route : Type 0 where
  pub pick : Option Engine
  pub tier_decided : Decided
  pub eff_tier : Tier
  pub shape : Shape
  pub winners_for_cell : List Engine
  pub cliff : List Engine
  pub scan : Option ℕ

-- `eff_tier`
abbrev pub effective : Decided → Tier
effective (decided tier) = tier
effective fallback = cold

-- `Router(use_catalog).route`
unfoldable pub route : Bool → Query → Route
unfolding time_tier shape_of scan_rows table_names winners_at first_engine
route use_catalog q =
    let tier = time_tier q.comparisons in
    let shape = shape_of use_catalog q in
    let cell = winners_at shape (effective tier) in
    record {
      pick = first_engine cell;
      tier_decided = tier;
      eff_tier = effective tier;
      shape = shape;
      winners_for_cell = cell;
      cliff = (winners shape).cliff;
      scan = if use_catalog then some (scan_rows true (table_names q)) else none;
    }
