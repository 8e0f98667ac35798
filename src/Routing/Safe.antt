-- ===== src/Routing/Safe.antt =====
-- When a route is right, and when it is catastrophic.
use sdw_lab_benchmarks.Prelude.{
  Bool-cases, ◌≡◌, ◌≢◌, refl, ap, ◌∙◌, arith, String, Bool, true, false, none, some, List, [], ◌∷◌,
  keys, lookup, lookup-eq-none_iff, contains, any_of, string_eq, Option-cases, inl, inr,
}
use sdw_lab_benchmarks.Routing.Winners.{
  same_engine, winners, minor_misroute, Engine, clickhouse_native, Shape, join_6table, Tier,
  winners_at, views, correct, catastrophic_misroute, parse_fail, classify,
}
use sdw_lab_benchmarks.Routing.Router.{
  Query, time_tier, effective, table_names, view_shape, tree_shape, shape_of, first_engine, route,
}
use sdw_lab_benchmarks.Routing.Score.{Case, picked_outcome, parsed_outcome, outcome_of}

-- The first winner of a cell.
cell_pick :
    (shape : Shape) (tier : Tier)
    → (pick : Engine) × (first_engine (winners_at shape tier) ≡ some pick)
unfolding first_engine winners_at
cell_pick shape tier = elim (Option-cases (first_engine (winners_at shape tier))) [
  | inl empty ↦ absurd (ground arith)
  | inr found ↦ found
]

pick_wins :
    (shape : Shape) (tier : Tier) (pick : Engine)
    → first_engine (winners_at shape tier) ≡ some pick
    → classify pick tier shape ≡ correct
unfolding first_engine winners_at classify
pick_wins shape tier pick h = ground arith

-- The four outcomes of a pick, as texts, by the two tests of `classify`.
pub classify-cases :
    (pick : Engine) (expected : Tier) (shape : Shape) (P : String → Type 0)
    → (any_of (same_engine pick) (winners shape).cliff ≡ true → P catastrophic_misroute)
    → P correct
    → P minor_misroute
    → P (classify pick expected shape)
unfolding classify
classify-cases pick expected shape P fails wins loses =
    elim (Bool-cases (any_of (same_engine pick) (winners shape).cliff)) [
      | inl cliff ↦ rw (cliff) (fails cliff)
      | inr none_there ↦ elim (Bool-cases (any_of (same_engine pick) (winners_at shape expected))) [
        | inl won ↦ rw (none_there, won) wins
        | inr lost ↦ rw (none_there, lost) loses
      ]
    ]

cliff_free :
    (shape : Shape) (tier : Tier) (pick : Engine)
    → first_engine (winners_at shape tier) ≡ some pick
    → any_of (same_engine pick) (winners shape).cliff ≡ false
unfolding first_engine winners_at
cliff_free shape tier pick h = ground arith

no_cliff :
    (shape : Shape) (tier expected : Tier) (pick : Engine)
    → first_engine (winners_at shape tier) ≡ some pick
    → classify pick expected shape ≢ catastrophic_misroute
no_cliff shape tier expected pick h =
    let free = cliff_free shape tier pick h in
    classify-cases pick expected shape (λ o. o ≢ catastrophic_misroute) (λ cliff e. absurd cc)
      (λ e. absurd cc) (λ e. absurd cc)

classified :
    (pick : Engine) (expected : Tier) (shape : Shape) → classify pick expected shape ≢ parse_fail
classified pick expected shape =
    classify-cases pick expected shape (λ o. o ≢ parse_fail) (λ cliff e. absurd cc) (λ e. absurd cc)
      (λ e. absurd cc)

hidden_join : (tier : Tier) → first_engine (winners_at join_6table tier) ≢ some clickhouse_native
unfolding first_engine winners_at
hidden_join tier e = ground arith

pick_of :
    (use_catalog : Bool) (q : Query)
    → (route use_catalog q).pick
      ≡ first_engine (winners_at (shape_of use_catalog q) (effective (time_tier q.comparisons)))
unfolding route
pick_of use_catalog q = refl

routed_outcome :
    (use_catalog : Bool) (tier : Tier) (shape : Shape) (q : Query) (pick : Engine)
    → (route use_catalog q).pick ≡ some pick
    → parsed_outcome use_catalog tier shape (some q) ≡ classify pick tier shape
unfolding parsed_outcome picked_outcome
routed_outcome use_catalog tier shape q pick found = ap (picked_outcome tier shape) found

outcome_of_parsed :
    (use_catalog : Bool) (c : Case) (q : Query) (pick : Engine)
    → c.parsed ≡ some q
    → first_engine (winners_at (shape_of use_catalog q) (effective (time_tier q.comparisons)))
      ≡ some pick
    → outcome_of use_catalog c ≡ classify pick c.expected_tier c.shape
unfolding outcome_of
outcome_of_parsed use_catalog c q pick parsed found =
    ap (parsed_outcome use_catalog c.expected_tier c.shape) parsed
    ∙ routed_outcome use_catalog c.expected_tier c.shape q pick (pick_of use_catalog q ∙ found)

shape_of_plain : (q : Query) → view_shape (table_names q) ≡ none → shape_of true q ≡ tree_shape q
unfolding shape_of
shape_of_plain q e = rw (shape_of, e) refl

shape_of_view : (q : Query) (s : Shape) → view_shape (table_names q) ≡ some s → shape_of true q ≡ s
unfolding shape_of
shape_of_view q s e = rw (shape_of, e) refl

plain_shape : (q : Query) → shape_of false q ≡ tree_shape q
unfolding shape_of
plain_shape q = refl

-- A query whose shape the router reads right is routed, and never to an engine that fails on the
-- shape, whatever tier the router decides.
pub right_shape_never_catastrophic :
    (use_catalog : Bool) (c : Case) (q : Query)
    → c.parsed ≡ some q
    → shape_of use_catalog q ≡ c.shape
    → (outcome_of use_catalog c ≢ catastrophic_misroute) × (outcome_of use_catalog c ≢ parse_fail)
right_shape_never_catastrophic use_catalog c q parsed right =
    let tier = effective (time_tier q.comparisons) in
    let (pick, found) = cell_pick c.shape tier in
    let routed = outcome_of_parsed use_catalog c q pick parsed (rw (right) found) in
    rw (routed)
      (no_cliff c.shape tier c.expected_tier pick found, classified pick c.expected_tier c.shape)

-- A query whose shape and tier the router reads right is routed to a recorded winner.
pub right_route_correct :
    (use_catalog : Bool) (c : Case) (q : Query)
    → c.parsed ≡ some q
    → shape_of use_catalog q ≡ c.shape
    → effective (time_tier q.comparisons) ≡ c.expected_tier
    → outcome_of use_catalog c ≡ correct
right_route_correct use_catalog c q parsed right tier =
    let (pick, found) = cell_pick c.shape c.expected_tier in
    rw (outcome_of_parsed use_catalog c q pick parsed (rw (right, tier) found))
      (pick_wins c.shape c.expected_tier pick found)

no_view :
    (tables : List String)
    → any_of (λ t. contains (keys views) t) tables ≡ false
    → view_shape tables ≡ none
unfolding view_shape
no_view [] h = refl
no_view (t ∷ tables) h = ground (arith, no_view tables, lookup-eq-none_iff t views)

-- On a query over no view the two routers pick the same engine: reading the catalog changes routes
-- through views only.
pub routers_agree :
    (q : Query)
    → any_of (λ t. contains (keys views) t) (table_names q) ≡ false
    → (route true q).pick ≡ (route false q).pick
routers_agree q plain =
    rw (pick_of, pick_of, shape_of_plain q (no_view (table_names q) plain), plain_shape q) refl

view_found :
    (tables : List String)
    → any_of (λ t. contains (keys views) t) tables ≡ true
    → view_shape tables ≡ some join_6table
unfolding view_shape lookup contains
view_found [] h = absurd cc
view_found (t ∷ tables) h = ground (arith, view_found tables)

-- A query over a view is read as the join that the view hides, and the router that reads the catalog
-- does not pick the engine that fails on it.
pub views_resolved :
    (q : Query)
    → any_of (λ t. contains (keys views) t) (table_names q) ≡ true
    → (shape_of true q ≡ join_6table) × ((route true q).pick ≢ some clickhouse_native)
views_resolved q over_view =
    let joined = shape_of_view q join_6table (view_found (table_names q) over_view) in
    (joined, rw (pick_of true q, joined) (hidden_join (effective (time_tier q.comparisons))))
