-- ===== src/MapFidelity/Score.antt =====
-- The scores of a source and of the named detections, map_fidelity.py (`score_source`,
-- `score_detections`, `score_all`). A rounded quotient `round(a / b, 4)` is kept as its exact
-- numerator and denominator.
use sdw_lab_benchmarks.Prelude.{
  ℕ, ◌+◌, ◌-◌, String, Bool, false, not, ◌&&◌, ◌||◌, Option, none, some, List, map, lookup, length,
  keep, count_if, ◌==◌, nat_eq, string_eq, if◌then◌else◌,
}
use sdw_lab_benchmarks.Prelude.Results.{Result, ok, raise, from_option, collect, ◌>>=◌, ◌>>◌}
use sdw_lab_benchmarks.MapFidelity.Schema.{
  OcsfSchema, OcsfClass, Resolution, ScoreError, key_error, zero_division, resolve_ocsf_path,
}
use sdw_lab_benchmarks.MapFidelity.Validate.{
  MappingRecord, Mapping, InventoryField, Inventory, validate_mapping,
}

pub record Ratio : Type 0 where
  pub numerator : ℕ
  pub denominator : ℕ

-- `round(a / b, 4)`
unfoldable pub divide : ℕ → ℕ → Result ScoreError Ratio
divide a b = if b == 0 then raise zero_division else ok (record { numerator = a; denominator = b })

-- An entry of `SOURCES`.
pub record SourceConfig : Type 0 where
  pub class_name : String
  pub mapping : Mapping
  pub has_official : Bool

pub record Row : Type 0 where
  pub field : String
  pub kind : String
  pub detection_relevant : Bool
  pub ocsf : String
  pub status : String
  pub resolution : Resolution
  pub note : String
  pub official : Option Bool

abbrev pub has_status : String → Row → Bool
has_status s r = r.status == s

-- `r.get("official")` as a truth value
abbrev pub is_official : Row → Bool
is_official r = elim r.official [ none ↦ false | some b ↦ b ]

-- the `row` of a field
unfoldable pub row_of : SourceConfig → InventoryField → MappingRecord → Resolution → Row
row_of cfg f rec resolution = record {
  field = f.name;
  kind = f.kind;
  detection_relevant = f.detection_relevant;
  ocsf = rec.ocsf;
  status = rec.status;
  resolution = resolution;
  note = rec.note;
  official =
      if cfg.has_official then some (elim rec.official [ none ↦ false | some b ↦ b ]) else none;
}

-- the body of the loop over the inventory
unfoldable pub score_field : OcsfSchema → SourceConfig → InventoryField → Result ScoreError Row
unfolding row_of
score_field schema cfg f = do
  rec ← from_option (key_error f.name) (lookup f.name cfg.mapping)
  resolution ← resolve_ocsf_path schema cfg.class_name rec.ocsf
  ok (row_of cfg f rec resolution)

pub record Official : Type 0 where
  pub official_mapped : ℕ
  pub official_unmapped : ℕ
  pub implementation_gap_fields : List String
  pub implementation_gap : ℕ

pub record Summary : Type 0 where
  pub class_name : String
  pub class_uid : ℕ
  pub total_fields : ℕ
  pub typed : ℕ
  pub coerced : ℕ
  pub unmapped : ℕ
  pub coverage : Ratio
  pub coverage_incl_coerced : Ratio
  pub lossy : ℕ
  pub lossy_fraction : Ratio
  pub detection_relevant_fields : ℕ
  pub detection_relevant_lossy : ℕ
  pub official : Option Official

pub record Scored : Type 0 where
  pub summary : Summary
  pub fields : List Row

-- The shipped mapper drops a field that has a typed or coerced home.
abbrev pub is_gap : Row → Bool
is_gap r = not (is_official r) && (has_status "typed" r || has_status "coerced" r)

unfoldable pub score_official : List Row → Official
score_official fields =
    let official = count_if is_official fields in
    let impl_gap = map (λ (r : Row). r.field) (keep is_gap fields) in
    record {
      official_mapped = official;
      official_unmapped = length fields - official;
      implementation_gap_fields = impl_gap;
      implementation_gap = length impl_gap;
    }

-- the `summary` of the rows, with its three quotients
unfoldable pub summary_of : OcsfClass → SourceConfig → List Row → Ratio → Ratio → Ratio → Summary
unfolding score_official
summary_of cls cfg fields coverage coverage_incl lossy_fraction =
    let typed = count_if (has_status "typed") fields in
    let coerced = count_if (has_status "coerced") fields in
    let unmapped = count_if (has_status "unmapped") fields in
    let dr = keep (λ (r : Row). r.detection_relevant) fields in
    let dr_lossy = keep (λ r. not (has_status "typed" r)) dr in
    record {
      class_name = cfg.class_name;
      class_uid = cls.uid;
      total_fields = length fields;
      typed = typed;
      coerced = coerced;
      unmapped = unmapped;
      coverage = coverage;
      coverage_incl_coerced = coverage_incl;
      lossy = coerced + unmapped;
      lossy_fraction = lossy_fraction;
      detection_relevant_fields = length dr;
      detection_relevant_lossy = length dr_lossy;
      official = if cfg.has_official then some (score_official fields) else none;
    }

unfoldable pub summarise : OcsfClass → SourceConfig → List Row → Result ScoreError Summary
unfolding summary_of
summarise cls cfg fields = do
  let total = length fields
  let typed = count_if (has_status "typed") fields
  let coerced = count_if (has_status "coerced") fields
  let unmapped = count_if (has_status "unmapped") fields
  coverage ← divide typed total
  coverage_incl ← divide (typed + coerced) total
  lossy_fraction ← divide (coerced + unmapped) total
  ok (summary_of cls cfg fields coverage coverage_incl lossy_fraction)

unfoldable pub score_source : OcsfSchema → SourceConfig → Inventory → Result ScoreError Scored
unfolding score_field
score_source schema cfg inventory = do
  validate_mapping schema cfg.class_name cfg.mapping inventory
  fields ← collect (score_field schema cfg) inventory
  cls ← from_option (key_error cfg.class_name) (lookup cfg.class_name schema.classes)
  summary ← summarise cls cfg fields
  ok (record { summary = summary; fields = fields })
