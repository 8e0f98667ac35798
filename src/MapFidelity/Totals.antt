-- ===== src/MapFidelity/Totals.antt =====
-- What the counts of a scored source are.
use sdw_lab_benchmarks.Prelude.{
  Bool-cases, ap, ℕ, suc, ◌+◌, ◌<◌, String, Bool, true, false, ◌≡◌, refl, arith, none, some, List,
  [], ◌∷◌, keys, lookup, contains, length, count_if, All, ◌==◌, string_eq, eq_iff, Option-cases,
  inl, inr,
}
use sdw_lab_benchmarks.Prelude.Results.{ok, collect}
use sdw_lab_benchmarks.MapFidelity.Schema.{OcsfSchema, OcsfClass, Resolution, resolve_ocsf_path}
use sdw_lab_benchmarks.MapFidelity.Validate.{
  MappingRecord, Mapping, InventoryField, Inventory, inv_fields,
}
use sdw_lab_benchmarks.MapFidelity.Valid.{IsCovered, IsSound, IsValid, validate_mapping-ok_iff}
use sdw_lab_benchmarks.MapFidelity.Score.{
  SourceConfig, Row, Scored, Ratio, row_of, summary_of, has_status, score_field, summarise,
  score_source, divide,
}

-- The field's mapping record points at a catch-all.
abbrev pub goes_to_catch_all : OcsfSchema → Mapping → InventoryField → Bool
goes_to_catch_all schema mapping f = elim (lookup f.name mapping) [
  | none ↦ false
  | some rec ↦ contains schema.catch_alls rec.ocsf
]

lookup_sound {κ} :
    (P : String × MappingRecord → Type κ) (mapping : Mapping) (k : String)
    → All P mapping
    → contains (keys mapping) k ≡ true
    → (rec : MappingRecord) × (lookup k mapping ≡ some rec) × P (k, rec)
unfolding lookup contains
lookup_sound P [] k h m = absurd (ground arith)
lookup_sound P ((j, rec) ∷ rest) k h m = elim (Bool-cases (k == j)) [
  | inl e ↦ (rec, rw (e, lookup), rw ((eq_iff k j).0 e) h.0)
  | inr e ↦
      let (found, f, p) = lookup_sound P rest k h.1 (ground arith) in (found, rw (e, lookup) f, p)
]

module _ (schema : OcsfSchema) (cfg : SourceConfig) where
  is_unmapped-row_of :
      (f : InventoryField) (rec : MappingRecord) (kind : Resolution)
      → lookup f.name cfg.mapping ≡ some rec
      → IsSound schema cfg.class_name (f.name, rec)
      → has_status "unmapped" (row_of cfg f rec kind) ≡ goes_to_catch_all schema cfg.mapping f
  unfolding row_of
  is_unmapped-row_of f rec kind e s = rw (e, goes_to_catch_all) s.1

  -- Every field of a validated source is scored.
  rows_return :
      (inventory : Inventory)
      → All (IsSound schema cfg.class_name) cfg.mapping
      → IsCovered (inv_fields inventory) (keys cfg.mapping)
      → (rows : List Row) × (collect (score_field schema cfg) inventory ≡ ok rows)
        × (length rows ≡ length inventory)
        × (count_if (has_status "unmapped") rows
            ≡ count_if (goes_to_catch_all schema cfg.mapping) inventory)
  unfolding collect score_field
  rows_return [] s c = ([], refl, refl, refl)
  rows_return (f ∷ fs) s c =
      let (rec, e, sound) = lookup_sound (IsSound schema cfg.class_name) cfg.mapping f.name s c.0 in
      let ((kind, r), _) = sound in
      let (rows, ret, len, un) = rows_return fs s c.1 in
      (
        row_of cfg f rec kind ∷ rows,
        rw (e, r, ret),
        ap suc len,
        rw (is_unmapped-row_of f rec kind e sound, un),
      )

  -- A path resolves only in a class of the schema.
  class_of_resolve :
      (path : String) {kind : Resolution}
      → resolve_ocsf_path schema cfg.class_name path ≡ ok kind
      → (cls : OcsfClass) × (lookup cfg.class_name schema.classes ≡ some cls)
  unfolding resolve_ocsf_path
  class_of_resolve path h = elim (Option-cases (lookup cfg.class_name schema.classes)) [
    | inl e ↦ absurd (ground arith)
    | inr found ↦ found
  ]

  divide_lem : (a b : ℕ) → 0 < b → divide a b ≡ ok (record { numerator = a; denominator = b })
  unfolding divide
  divide_lem a b h = ground arith

  -- The fractions of a nonempty source are defined.
  summarise_returns :
      (cls : OcsfClass) (rows : List Row)
      → 0 < length rows
      → (cov covi lossy : Ratio) × (summarise cls cfg rows
          ≡ ok (summary_of cls cfg rows cov covi lossy))
  unfolding summarise
  summarise_returns cls rows h =
      let total = length rows in
      let typed = count_if (has_status "typed") rows in
      let coerced = count_if (has_status "coerced") rows in
      let unmapped = count_if (has_status "unmapped") rows in
      (
        record { numerator = typed; denominator = total },
        record { numerator = typed + coerced; denominator = total },
        record { numerator = coerced + unmapped; denominator = total },
        simp (divide_lem, h),
      )

  -- On a validated, nonempty source `score_source` returns. It has one row for each field of the
  -- inventory, and its unmapped count is the number of fields whose target is a catch-all.
  pub score_source_returns :
      (f : InventoryField) (inventory : Inventory)
      → IsValid schema cfg.class_name cfg.mapping (f ∷ inventory)
      → (scored : Scored) × (score_source schema cfg (f ∷ inventory) ≡ ok scored)
        × (scored.summary.total_fields ≡ length (f ∷ inventory))
        × (length scored.fields ≡ length (f ∷ inventory))
        × (scored.summary.unmapped
            ≡ count_if (goes_to_catch_all schema cfg.mapping) (f ∷ inventory))
  unfolding score_source
  score_source_returns f inventory v =
      let (rows, ret, len, un) = rows_return (f ∷ inventory) v.sound v.mapped in
      let (rec, e, sound) =
        lookup_sound (IsSound schema cfg.class_name) cfg.mapping f.name v.sound v.mapped.0 in
      let (cls, c) = class_of_resolve rec.ocsf sound.0.1 in
      let (cov, covi, lossy, sum) = summarise_returns cls rows (omega arith) in
      (
        record { summary = summary_of cls cfg rows cov covi lossy; fields = rows },
        rw (
          (validate_mapping-ok_iff schema cfg.class_name cfg.mapping (f ∷ inventory)).1 v,
          ret,
          c,
          sum,
        ),
        unfold summary_of in len,
        len,
        unfold summary_of in un,
      )
