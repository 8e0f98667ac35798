-- ===== src/MapFidelity/Validate.antt =====
-- The mapping of a source and its validation, map_fidelity.py (`validate_mapping`).
use sdw_lab_benchmarks.Prelude.{
  is_empty, String, Bool, not, ◌&&◌, Option, List, [], ◌∷◌, map, Dict, keys, keep, contains, ◌==◌,
  string_eq,
}
use sdw_lab_benchmarks.Prelude.Results.{Result, ok, raise_if, ◌>>=◌, ◌>>◌}
use sdw_lab_benchmarks.MapFidelity.Schema.{
  OcsfSchema, ScoreError, unmapped_fields, unknown_fields, not_catch_all, catch_all_status,
  resolve_ocsf_path,
}

-- One record of mapping.py; `official` stands on the Okta records only.
pub record MappingRecord : Type 0 where
  pub ocsf : String
  pub status : String
  pub official : Option Bool
  pub note : String

abbrev pub Mapping : Type 0
Mapping = Dict String MappingRecord

pub record InventoryField : Type 0 where
  pub name : String
  pub kind : String
  pub detection_relevant : Bool

abbrev pub Inventory : Type 0
Inventory = List InventoryField

abbrev pub inv_fields : Inventory → List String
inv_fields = map (λ (f : InventoryField). f.name)

-- `xs - ys`, in the order of `xs`; the source sorts it for the message of the exception
unfoldable pub difference : List String → List String → List String
difference xs ys = keep (λ x. not (contains ys x)) xs

-- the body of the loop over `mapping.items()`
unfoldable pub check_record :
    OcsfSchema → String → String → MappingRecord → Result ScoreError (Unit {0})
check_record schema class_name field rec = do
  kind ← resolve_ocsf_path schema class_name rec.ocsf
  let is_catch = contains schema.catch_alls rec.ocsf
  raise_if (rec.status == "unmapped" && not is_catch) (not_catch_all field rec.ocsf)
  raise_if (not (rec.status == "unmapped") && is_catch) (catch_all_status field rec.ocsf rec.status)

unfoldable pub check_records : OcsfSchema → String → Mapping → Result ScoreError (Unit {0})
unfolding check_record
check_records schema class_name [] = ok tt
check_records schema class_name ((field, rec) ∷ rest) = do
  check_record schema class_name field rec
  check_records schema class_name rest

unfoldable pub validate_mapping :
    OcsfSchema → String → Mapping → Inventory → Result ScoreError (Unit {0})
unfolding check_records difference
validate_mapping schema class_name mapping inventory = do
  let missing = difference (inv_fields inventory) (keys mapping)
  let extra = difference (keys mapping) (inv_fields inventory)
  raise_if (not (is_empty missing)) (unmapped_fields class_name missing)
  raise_if (not (is_empty extra)) (unknown_fields class_name extra)
  check_records schema class_name mapping
