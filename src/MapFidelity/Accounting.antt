-- ===== src/MapFidelity/Accounting.antt =====
-- The fields of a scored source add up.
use sdw_lab_benchmarks.Prelude.{
  Bool-cases, ◌+◌, ◌≤◌, String, Bool, true, false, not, ◌≡◌, ◌⊎◌, refl, arith, some, List, [], ◌∷◌,
  lookup, length, keep, count_if, All, ◌==◌, string_eq, Option-cases, inl, inr, subst,
}
use sdw_lab_benchmarks.Prelude.Results.{ok, from_option, collect, collect-All, >>=-eq-ok}
use sdw_lab_benchmarks.MapFidelity.Schema.{OcsfSchema, OcsfClass, key_error, resolve_ocsf_path}
use sdw_lab_benchmarks.MapFidelity.Validate.{
  MappingRecord, Mapping, InventoryField, Inventory, validate_mapping,
}
use sdw_lab_benchmarks.MapFidelity.Score.{
  SourceConfig, Ratio, Row, Scored, Summary, row_of, summary_of, has_status, score_field, summarise,
  score_source, divide,
}

-- The three statuses that mapping.py documents.
abbrev pub IsStatus : String → Type 0
IsStatus s = (s ≡ "typed") ⊎ (s ≡ "coerced") ⊎ (s ≡ "unmapped")

lookup-All {κ} :
    (P : MappingRecord → Type κ) (mapping : Mapping) (k : String) (rec : MappingRecord)
    → All (λ (e : String × MappingRecord). P e.1) mapping
    → lookup k mapping ≡ some rec
    → P rec
unfolding lookup
lookup-All P [] k rec h e = cc
lookup-All P ((j, r) ∷ rest) k rec h e = elim (Bool-cases (k == j)) [
  | inl same ↦ let q : r ≡ rec = ground arith in subst P q h.0
  | inr other ↦ lookup-All P rest k rec h.1 (ground arith)
]

module _ (schema : OcsfSchema) (cfg : SourceConfig) where
  score_field-IsStatus :
      All (λ (e : String × MappingRecord). IsStatus e.1.status) cfg.mapping
      → (f : InventoryField) (row : Row) → score_field schema cfg f ≡ ok row
      → IsStatus row.status
  unfolding score_field
  score_field-IsStatus h f row e = elim (Option-cases (lookup f.name cfg.mapping)) [
    | inl missing ↦ absurd (ground arith)
    | inr (rec, found) ↦
        let (kind, _, made) =
          >>=-eq-ok (resolve_ocsf_path schema cfg.class_name rec.ocsf) _
            (rw (found, score_field) at e) in
        let q : row_of cfg f rec kind ≡ row = cc in
        rw (← q)
          (unfold row_of in lookup-All (λ r. IsStatus r.status) cfg.mapping f.name rec h found)
  ]

abbrev OneOf : Bool → Bool → Bool → Type 0
OneOf t c u =
    ((t ≡ true) × (c ≡ false) × (u ≡ false))
    ⊎ ((t ≡ false) × (c ≡ true) × (u ≡ false))
    ⊎ ((t ≡ false) × (c ≡ false) × (u ≡ true))

IsStatus-OneOf : (s : String) → IsStatus s → OneOf (s == "typed") (s == "coerced") (s == "unmapped")
IsStatus-OneOf s (inl e) = rw e (inl (refl, refl, refl))
IsStatus-OneOf s (inr (inl e)) = rw e (inr (inl (refl, refl, refl)))
IsStatus-OneOf s (inr (inr e)) = rw e (inr (inr (refl, refl, refl)))

rows_add_up :
    (rows : List Row)
    → All (λ (r : Row). IsStatus r.status) rows
    → (count_if (has_status "typed") rows
          + (count_if (has_status "coerced") rows + count_if (has_status "unmapped") rows)
        ≡ length rows)
      × (length
            (keep (λ r. not (has_status "typed" r)) (keep (λ (r : Row). r.detection_relevant) rows))
          ≤ count_if (has_status "coerced") rows + count_if (has_status "unmapped") rows)
rows_add_up [] h = (refl, omega arith)
rows_add_up (r ∷ rows) h = ground (arith, IsStatus-OneOf r.status h.0, rows_add_up rows h.1)

module _ (schema : OcsfSchema) (cfg : SourceConfig) where
  summarise-ok :
      (cls : OcsfClass) (rows : List Row) (summary : Summary)
      → summarise cls cfg rows ≡ ok summary
      → (cov covi lossy : Ratio) × (summary_of cls cfg rows cov covi lossy ≡ summary)
  unfolding summarise
  summarise-ok cls rows summary h =
      let typed = count_if (has_status "typed") rows in
      let coerced = count_if (has_status "coerced") rows in
      let unmapped = count_if (has_status "unmapped") rows in
      let (cov, _, h1) = >>=-eq-ok (divide typed (length rows)) _ h in
      let (covi, _, h2) = >>=-eq-ok (divide (typed + coerced) (length rows)) _ h1 in
      let (lossy, _, h3) = >>=-eq-ok (divide (coerced + unmapped) (length rows)) _ h2 in
      (cov, covi, lossy, cc)

  score_source-ok :
      (inventory : Inventory) (scored : Scored)
      → score_source schema cfg inventory ≡ ok scored
      → (cls : OcsfClass) × (collect (score_field schema cfg) inventory ≡ ok scored.fields)
        × (summarise cls cfg scored.fields ≡ ok scored.summary)
  unfolding score_source
  score_source-ok inventory scored h =
      let (_, _, h1) =
        >>=-eq-ok (validate_mapping schema cfg.class_name cfg.mapping inventory) _ h in
      let (rows, c, h2) = >>=-eq-ok (collect (score_field schema cfg) inventory) _ h1 in
      let (cls, _, h3) =
        >>=-eq-ok (from_option (key_error cfg.class_name) (lookup cfg.class_name schema.classes)) _
          h2 in
      let (summary, s, h4) = >>=-eq-ok (summarise cls cfg rows) _ h3 in
      (cls, ground arith, ground arith)

  -- Where every status is one of the three, the typed and the lossy fields of a scored source are
  -- all its fields, and the detection-relevant lossy fields are among the lossy ones.
  pub score_source_adds_up :
      (inventory : Inventory) (scored : Scored)
      → All (λ (e : String × MappingRecord). IsStatus e.1.status) cfg.mapping
      → score_source schema cfg inventory ≡ ok scored
      → (scored.summary.typed + scored.summary.lossy ≡ scored.summary.total_fields)
        × (scored.summary.detection_relevant_lossy ≤ scored.summary.lossy)
  score_source_adds_up inventory scored known h =
      let (cls, rows, summed) = score_source-ok inventory scored h in
      let (cov, covi, lossy, e) = summarise-ok cls scored.fields scored.summary summed in
      rw (← e) (
        unfold summary_of in
        rows_add_up scored.fields (
          collect-All (λ (r : Row). IsStatus r.status) (score_field schema cfg)
            (score_field-IsStatus schema cfg known) inventory scored.fields rows))
