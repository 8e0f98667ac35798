-- ===== src/MapFidelity/Valid.antt =====
-- What a validated mapping is.
use sdw_lab_benchmarks.Prelude.{
  is_empty, String, true, ◌≡◌, ◌↔◌, refl, arith, List, [], ◌∷◌, keys, contains, All, ◌==◌,
  string_eq,
}
use sdw_lab_benchmarks.Prelude.Results.{ok}
use sdw_lab_benchmarks.MapFidelity.Schema.{OcsfSchema, Resolution, resolve_ocsf_path}
use sdw_lab_benchmarks.MapFidelity.Validate.{
  MappingRecord, Mapping, Inventory, inv_fields, difference, check_record, check_records,
  validate_mapping,
}

-- Every name of `xs` is among `ys`.
abbrev pub IsCovered : List String → List String → Type 0
IsCovered xs ys = All (λ x. contains ys x ≡ true) xs

-- The target resolves, and the status is "unmapped" exactly when the target is a catch-all.
abbrev pub IsSound : OcsfSchema → String → String × MappingRecord → Type 0
IsSound schema class_name entry =
    ((kind : Resolution) × (resolve_ocsf_path schema class_name entry.1.ocsf ≡ ok kind))
    × ((entry.1.status == "unmapped") ≡ contains schema.catch_alls entry.1.ocsf)

pub record IsValid (schema : OcsfSchema) (class_name : String) (mapping : Mapping)
    (inventory : Inventory) : Type 0 where
  pub mapped : IsCovered (inv_fields inventory) (keys mapping)
  pub known : IsCovered (keys mapping) (inv_fields inventory)
  pub sound : All (IsSound schema class_name) mapping

difference-empty_iff :
    (xs ys : List String) → (is_empty (difference xs ys) ≡ true) ↔ IsCovered xs ys
unfolding difference
difference-empty_iff [] ys = (λ _. tt, λ _. refl)
difference-empty_iff (x ∷ xs) ys = ground (arith, difference-empty_iff xs ys)

module _ (schema : OcsfSchema) (class_name : String) where
  check_record-ok_iff :
      (field : String) (rec : MappingRecord)
      → (check_record schema class_name field rec ≡ ok tt) ↔ IsSound schema class_name (field, rec)
  unfolding check_record
  check_record-ok_iff field rec = ground arith

  check_records-ok_iff :
      (mapping : Mapping)
      → (check_records schema class_name mapping ≡ ok tt) ↔ All (IsSound schema class_name) mapping
  unfolding check_records
  check_records-ok_iff [] = (λ _. tt, λ _. refl)
  check_records-ok_iff ((field, rec) ∷ rest) =
      ground (arith, check_record-ok_iff field rec, check_records-ok_iff rest)

  -- `validate_mapping` passes exactly when every inventory field has a mapping record and every
  -- record a field of the inventory, every target resolves in the schema, and a record's status is
  -- "unmapped" exactly when its target is a catch-all.
  pub validate_mapping-ok_iff :
      (mapping : Mapping) (inventory : Inventory)
      → (validate_mapping schema class_name mapping inventory ≡ ok tt)
        ↔ IsValid schema class_name mapping inventory
  unfolding validate_mapping
  validate_mapping-ok_iff mapping inventory = ground (
    arith,
    difference-empty_iff (inv_fields inventory) (keys mapping),
    difference-empty_iff (keys mapping) (inv_fields inventory),
    check_records-ok_iff mapping,
  )
