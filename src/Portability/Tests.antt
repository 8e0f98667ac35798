-- ===== src/Portability/Tests.antt =====
-- A rule that counts events, compiled to a query in SPL.
use sdw_lab_benchmarks.Prelude.{◌≡◌, eqb, ◌≢◌, refl, none, some, [], ◌∷◌}
use sdw_lab_benchmarks.Portability.Fidelity.{
  Condition, Correlation, Meta, Output, one_text, parse_correlation, score_correlation,
  fidelity_fraction, text_of,
}
use sdw_lab_benchmarks.Portability.Fractions.{shows_all, full_when_shown, no_threshold_not_full}

abbrev condition : Condition
condition = record { gte = some (some "10"); gt = none; field = none }

abbrev correlation : Correlation
correlation = record {
  kind = some "event_count";
  group_by = some ("TargetUserName" ∷ []);
  timespan = some "5m";
  condition = condition;
}

abbrev meta : Meta
meta = record {
  kind = some "event_count";
  group_by = "TargetUserName" ∷ [];
  timespan = some "5m";
  threshold = some "10";
  value_field = none;
}

abbrev query : Output
query =
    one_text
      "| bin _time span=5m | stats count as event_count by _time TargetUserName | search event_count >= 10"

parsed : parse_correlation (none ∷ some correlation ∷ []) ≡ some meta
unfolding parse_correlation
parsed = refl

all_found : fidelity_fraction (score_correlation query meta) meta ≡ (3, 3)
unfolding fidelity_fraction score_correlation
all_found = refl

full_when_shown_example :
    eqb
      (fidelity_fraction (score_correlation query meta) meta).0
      (fidelity_fraction (score_correlation query meta) meta).1
    ≡ shows_all (text_of query) meta
full_when_shown_example = full_when_shown query meta

no_threshold_not_full_example :
    (fidelity_fraction
      (score_correlation query (record meta { threshold = none }))
      (record meta { threshold = none })).0
    ≢ (fidelity_fraction
        (score_correlation query (record meta { threshold = none }))
        (record meta { threshold = none })).1
no_threshold_not_full_example =
    no_threshold_not_full query (record meta { threshold = none }) refl refl
