-- ===== src/Routing/Tests.antt =====
-- A recent lookup, a query over a view, and one that is not parsed.
use sdw_lab_benchmarks.Prelude.{
  ◌≡◌, ◌≢◌, refl, true, false, none, some, [], ◌∷◌, length, contains, count_if, ◌==◌, string_eq,
}
use sdw_lab_benchmarks.Routing.Winners.{
  clickhouse_native, point_lookup, join_6table, hot, correct, catastrophic_misroute, parse_fail,
}
use sdw_lab_benchmarks.Routing.Router.{
  Comparison, Query, shape_of, view_shape, table_names, time_tier, route,
}
use sdw_lab_benchmarks.Routing.Score.{
  Case, outcome_of, run_rows, templated_accuracy, full_adversarial, mode_acc,
}
use sdw_lab_benchmarks.Routing.Safe.{
  right_shape_never_catastrophic, right_route_correct, routers_agree, views_resolved,
}
use sdw_lab_benchmarks.Routing.Totals.{total, run_adds_up}

abbrev recent : Comparison
recent = record {
  columns = "ts" ∷ [];
  wrapped_columns = [];
  func_names = [];
  sql = "ts > CAST('2026-06-14' AS DATE)";
}

abbrev lookup_query : Query
lookup_query = record {
  comparisons = recent ∷ [];
  tables = "conn" ∷ [];
  joins = 0;
  has_agg_func = false;
  has_group = false;
  has_exists = false;
  has_distinct = false;
  has_having = false;
  has_order = false;
  has_limit = true;
}

abbrev view_query : Query
view_query = record lookup_query { tables = "soc_summary_v" ∷ []; has_limit = false }

abbrev lookup_case : Case
lookup_case = record {
  id = "t_pt";
  mode = "templated";
  expected_tier = hot;
  shape = point_lookup;
  parsed = some lookup_query;
}

abbrev view_case : Case
view_case = record {
  id = "m1_view";
  mode = "view_obfuscation";
  expected_tier = hot;
  shape = join_6table;
  parsed = some view_query;
}

abbrev unparsed : Case
unparsed = record view_case { id = "m5_dialect"; parsed = none }

right_shape_never_catastrophic_example :
    (outcome_of true lookup_case ≢ catastrophic_misroute)
    × (outcome_of true lookup_case ≢ parse_fail)
unfolding shape_of view_shape
right_shape_never_catastrophic_example =
    right_shape_never_catastrophic true lookup_case lookup_query refl refl

right_route_correct_example : outcome_of true lookup_case ≡ correct
unfolding shape_of view_shape time_tier
right_route_correct_example = right_route_correct true lookup_case lookup_query refl refl refl

routers_agree_example : (route true lookup_query).pick ≡ (route false lookup_query).pick
unfolding contains table_names
routers_agree_example = routers_agree lookup_query refl

views_resolved_example :
    (shape_of true view_query ≡ join_6table)
    × ((route true view_query).pick ≢ some clickhouse_native)
unfolding contains table_names
views_resolved_example = views_resolved view_query refl

run_adds_up_example :
    (total (templated_accuracy (run_rows (lookup_case ∷ []) (view_case ∷ unparsed ∷ [])))
      ≡ length (lookup_case ∷ []))
    × (total (full_adversarial (run_rows (lookup_case ∷ []) (view_case ∷ unparsed ∷ [])))
        ≡ length (view_case ∷ unparsed ∷ []))
    × (total (
          mode_acc true "view_obfuscation"
            (run_rows (lookup_case ∷ []) (view_case ∷ unparsed ∷ [])))
        ≡ count_if (λ (c : Case). c.mode == "view_obfuscation") (view_case ∷ unparsed ∷ []))
run_adds_up_example =
    run_adds_up (lookup_case ∷ []) (view_case ∷ unparsed ∷ []) true "view_obfuscation"
      (refl, (refl, tt)) refl

-- The router that does not read the catalog sends the view's join to the engine that fails on it.
view_missed : outcome_of false view_case ≡ catastrophic_misroute
unfolding outcome_of
view_missed = refl
