-- ===== src/MapFidelity/Tests.antt =====
-- A schema subset of one class, a source of two fields, and a detection on it.
use sdw_lab_benchmarks.Prelude.{
  ◌+◌, ◌≤◌, String, true, false, ◌≡◌, ◌↔◌, refl, none, some, [], ◌∷◌, lookup, insert, contains,
  IsDistinct, All, length, count_if, inl, inr, nat_eq, string_eq, pair_eq,
}
use sdw_lab_benchmarks.Prelude.Results.{ok, collect}
use sdw_lab_benchmarks.Prelude.Text.{split}
use sdw_lab_benchmarks.MapFidelity.Schema.{
  OcsfSchema, full, resolve_ocsf_path, resolve_segments, descend,
}
use sdw_lab_benchmarks.MapFidelity.Walks.{ClassWalk, resolve_ocsf_path-ok_iff}
use sdw_lab_benchmarks.MapFidelity.Validate.{
  Mapping, Inventory, validate_mapping, check_records, check_record, difference,
}
use sdw_lab_benchmarks.MapFidelity.Valid.{IsValid, validate_mapping-ok_iff}
use sdw_lab_benchmarks.MapFidelity.Score.{
  SourceConfig, Scored, Row, score_source, score_field, row_of, summarise, summary_of, divide,
}
use sdw_lab_benchmarks.MapFidelity.Totals.{goes_to_catch_all, score_source_returns}
use sdw_lab_benchmarks.MapFidelity.Accounting.{score_source_adds_up}
use sdw_lab_benchmarks.MapFidelity.Detections.{
  Detection, DetectionScore, score_detections, score_detection, status_by, add_rows,
  breaking_fields, detection_score,
}
use sdw_lab_benchmarks.MapFidelity.Survival.{TellsSurvival, score_detections_survival}

abbrev schema : OcsfSchema
schema = record {
  version = "1.8.0";
  catch_alls = "unmapped" ∷ [];
  classes =
      (
        "authentication",
        record { uid = 3002; attrs = ("user", some "user") ∷ ("unmapped", none) ∷ [] },
      )
      ∷ [];
  objects = ("user", ("name", none) ∷ []) ∷ [];
}

abbrev inventory : Inventory
inventory =
    record { name = "actor"; kind = "string"; detection_relevant = true }
    ∷ record { name = "raw"; kind = "string"; detection_relevant = true }
    ∷ []

abbrev mapping : Mapping
mapping =
    ("actor", record { ocsf = "user.name"; status = "typed"; official = none; note = "" })
    ∷ ("raw", record { ocsf = "unmapped"; status = "unmapped"; official = none; note = "" })
    ∷ []

abbrev cfg : SourceConfig
cfg = record { class_name = "authentication"; mapping = mapping; has_official = false }

resolve_ocsf_path-ok_iff_example :
    (resolve_ocsf_path schema "authentication" "user.name" ≡ ok full)
    ↔ ClassWalk schema "authentication" full (split "." "user.name")
resolve_ocsf_path-ok_iff_example = resolve_ocsf_path-ok_iff schema "authentication" "user.name" full

validate_mapping-ok_iff_example :
    (validate_mapping schema "authentication" mapping inventory ≡ ok tt)
    ↔ IsValid schema "authentication" mapping inventory
validate_mapping-ok_iff_example = validate_mapping-ok_iff schema "authentication" mapping inventory

mapping-IsValid : IsValid schema "authentication" mapping inventory
unfolding contains resolve_ocsf_path resolve_segments descend split lookup
mapping-IsValid = record {
  mapped = (refl, (refl, tt));
  known = (refl, (refl, tt));
  sound = (((full, refl), refl), (((full, refl), refl), tt));
}

score_source_returns_example :
    (scored : Scored) × (score_source schema cfg inventory ≡ ok scored)
    × (scored.summary.total_fields ≡ length inventory)
    × (length scored.fields ≡ length inventory)
    × (scored.summary.unmapped ≡ count_if (goes_to_catch_all schema mapping) inventory)
score_source_returns_example =
    score_source_returns schema cfg
      (record { name = "actor"; kind = "string"; detection_relevant = true })
      (record { name = "raw"; kind = "string"; detection_relevant = true } ∷ []) mapping-IsValid

abbrev actor_row : Row
actor_row = record {
  field = "actor";
  kind = "string";
  detection_relevant = true;
  ocsf = "user.name";
  status = "typed";
  resolution = full;
  note = "";
  official = none;
}

abbrev raw_row : Row
raw_row = record {
  field = "raw";
  kind = "string";
  detection_relevant = true;
  ocsf = "unmapped";
  status = "unmapped";
  resolution = full;
  note = "";
  official = none;
}

abbrev scored : Scored
scored = record {
  summary = record {
    class_name = "authentication";
    class_uid = 3002;
    total_fields = 2;
    typed = 1;
    coerced = 0;
    unmapped = 1;
    coverage = record { numerator = 1; denominator = 2 };
    coverage_incl_coerced = record { numerator = 1; denominator = 2 };
    lossy = 1;
    lossy_fraction = record { numerator = 1; denominator = 2 };
    detection_relevant_fields = 2;
    detection_relevant_lossy = 1;
    official = none;
  };
  fields = actor_row ∷ raw_row ∷ [];
}

score_inventory : score_source schema cfg inventory ≡ ok scored
unfolding score_source validate_mapping check_records check_record difference contains collect
    score_field row_of resolve_ocsf_path resolve_segments descend split lookup summarise summary_of
    divide
score_inventory = refl

score_source_adds_up_example :
    (scored.summary.typed + scored.summary.lossy ≡ scored.summary.total_fields)
    × (scored.summary.detection_relevant_lossy ≤ scored.summary.lossy)
score_source_adds_up_example =
    score_source_adds_up schema cfg inventory scored (inl refl, (inr (inr refl), tt))
      score_inventory

abbrev detection : Detection
detection = record { name = "takeover"; source = "okta"; desc = ""; fields = "actor" ∷ "raw" ∷ [] }

abbrev detection_result : DetectionScore
detection_result = record {
  name = "takeover";
  source = "okta";
  desc = "";
  fields_required = "actor" ∷ "raw" ∷ [];
  breaking = record { field = "raw"; status = "unmapped" } ∷ [];
  survives_clean = false;
}

score_detection_result :
    score_detections (("okta", scored) ∷ []) (detection ∷ []) ≡ ok (detection_result ∷ [])
unfolding score_detections score_detection status_by add_rows breaking_fields detection_score
    collect lookup insert
score_detection_result = refl

one_source : IsDistinct {A = String} ("okta" ∷ [])
unfolding contains
one_source = (refl, tt)

score_detections_survival_example :
    All (TellsSurvival (("okta", scored) ∷ [])) (detection_result ∷ [])
score_detections_survival_example =
    score_detections_survival (("okta", scored) ∷ []) (detection ∷ []) (detection_result ∷ [])
      one_source score_detection_result
