-- ===== src/PipelineFidelity/ScoreTests.antt =====
-- A source of two records: one that a tool emits with a changed port, one that it drops.
use sdw_lab_benchmarks.Prelude.{
  ◌≡◌, refl, arith, eq_iff, false, none, some, String, List, [], ◌∷◌, ◌==◌, Dict, string_eq, lookup,
  contains,
}
use sdw_lab_benchmarks.Prelude.Text.{split}
use sdw_lab_benchmarks.Prelude.Results.{ok, raise}
use sdw_lab_benchmarks.PipelineFidelity.Events.{Json, leaf, object, Members, empty, member, find}
use sdw_lab_benchmarks.PipelineFidelity.Reference.{GoldField}
use sdw_lab_benchmarks.PipelineFidelity.Values.{Python}
use sdw_lab_benchmarks.PipelineFidelity.Score.{GoldRecord}
use sdw_lab_benchmarks.PipelineFidelity.Sources.{
  SourceScore, source_score, load_emitted, missing_id,
}
use sdw_lab_benchmarks.MapFidelity.Schema.{OcsfSchema, full, resolve_ocsf_path}
use sdw_lab_benchmarks.PipelineFidelity.MergedSchema.{
  load_merged_schema, IsExtension, merged_resolves,
}
use sdw_lab_benchmarks.PipelineFidelity.Bounds.{shares}

abbrev text_of : Json String → String
text_of (leaf s) = s
text_of (object ms) = "{}"

-- Values that are texts, with "" for a None.
abbrev texts : Python String
texts = record {
  is_bool = λ v. false;
  is_number = λ v. false;
  plain_eq = λ v w. text_of v == text_of w;
  float_eq = λ v w. text_of v == text_of w;
  canonical = text_of;
  is_none = λ v. text_of v == "";
}

abbrev field : String → String → String → GoldField String
field name ocsf value = record {
  field = name;
  ocsf = ocsf;
  status = "typed";
  value = some (leaf value);
}

abbrev gold_record : String → GoldRecord String
gold_record id = record {
  id = id;
  cls = "network_activity";
  class_uid = leaf "4001";
  activity_id = leaf "6";
  type_uid = leaf "400106";
  fields =
      field "id.orig_h" "src_endpoint.ip" "10.0.0.1"
      ∷ field "id.orig_p" "src_endpoint.port" "443"
      ∷ [];
  semantic =
      (
        "severity_remap",
        record {
          expect_paths = [];
          expected_severity_id = some (leaf "1");
          expect = [];
          note = "";
        },
      )
      ∷ [];
}

abbrev gold : List (GoldRecord String)
gold = gold_record "a" ∷ gold_record "b" ∷ []

abbrev emitted : Dict String (Members String)
emitted =
    (
      "a",
      member "class_uid" (leaf "4001") (
          member "src_endpoint"
            (object (member "ip" (leaf "10.0.0.1") (member "port" (leaf "80") empty)))
            (member "severity_id" (leaf "1") empty)),
    )
    ∷ []

abbrev scored : SourceScore
scored = source_score texts ("unmapped" ∷ []) emitted "zeek_conn" gold

-- Two of four fields land, one keeps its value, and one record of two has no output.
scores : shares scored ≡ (1, 2) ∷ (2, 4) ∷ (1, 2) ∷ (1, 2) ∷ (0, 2) ∷ (0, 2) ∷ []
unfolding source_score split find
scores = refl

no_id : load_emitted {L = String} ((none, empty) ∷ []) [] ≡ raise missing_id
unfolding load_emitted
no_id = refl

abbrev schema_of : String → List String → OcsfSchema
schema_of name catch_alls = record {
  version = "1.8.0";
  catch_alls = catch_alls;
  classes = (name, record { uid = 4001; attrs = ("time", none) ∷ [] }) ∷ [];
  objects = [];
}

merged_catch_alls :
    (load_merged_schema
      (schema_of "a" ("unmapped" ∷ "raw" ∷ []))
      (schema_of "b" ("raw" ∷ []))).catch_alls
    ≡ "raw" ∷ "unmapped" ∷ []
unfolding load_merged_schema
merged_catch_alls = refl

-- A class with an object, and an extension with another class and object.
abbrev subset : OcsfSchema
subset = record (schema_of "network_activity" ("unmapped" ∷ [])) {
  classes =
      (
        "network_activity",
        record { uid = 4001; attrs = ("src_endpoint", some "network_endpoint") ∷ [] },
      )
      ∷ [];
  objects = ("network_endpoint", ("ip", none) ∷ []) ∷ [];
}

abbrev extension : OcsfSchema
extension = record (schema_of "api_activity" ("unmapped" ∷ [])) {
  objects = ("api", ("operation", none) ∷ []) ∷ [];
}

subset-IsExtension : IsExtension subset extension
unfolding contains lookup
subset-IsExtension = record {
  classes_once = (refl, tt);
  objects_once = (refl, tt);
  new_classes = λ name h.
      let e : name ≡ "api_activity" = (eq_iff name "api_activity").0 (ground (arith, h)) in
      rw (e) refl;
  new_objects =
      λ name h. let e : name ≡ "api" = (eq_iff name "api").0 (ground (arith, h)) in rw (e) refl;
}

subset_path : resolve_ocsf_path subset "network_activity" "src_endpoint.ip" ≡ ok full
unfolding resolve_ocsf_path split lookup
subset_path = refl

merged_resolves_example :
    resolve_ocsf_path (load_merged_schema subset extension) "network_activity" "src_endpoint.ip"
    ≡ ok full
merged_resolves_example =
    merged_resolves subset extension subset-IsExtension "network_activity" "src_endpoint.ip"
      subset_path
