-- ===== src/PipelineFidelity/Bounds.antt =====
-- The counts of a source's scores against each other.
use sdw_lab_benchmarks.Prelude.{
  ℕ, ◌+◌, ◌≤◌, ◌≡◌, refl, arith, String, Option, none, some, List, [], ◌∷◌, keep, length, keys,
  get_count, IsDistinct, string_eq, Bool-cases, Option-cases, length-map, inl, inr,
}
use sdw_lab_benchmarks.PipelineFidelity.Events.{Json, Members, object, empty, get_path}
use sdw_lab_benchmarks.PipelineFidelity.Reference.{GoldField}
use sdw_lab_benchmarks.PipelineFidelity.Values.{Python}
use sdw_lab_benchmarks.PipelineFidelity.Score.{
  GoldRecord, RecordScore, is_homed, miss_of, landed_value, keeps_value, score_field, score_fields,
  score_output, score_nothing, score_record,
}
use sdw_lab_benchmarks.PipelineFidelity.Sources.{Quotient, Tally, SourceScore}

-- The counts of a record: what landed and what missed add up.
pub record IsCounted (r : RecordScore) : Type 0 where
  pub fields : r.landed + length r.field_misses ≡ r.total
  pub values : r.preserved + length r.value_misses ≡ r.eligible
  pub same : r.eligible ≡ r.landed

module _ {L : Type 0} (py : Python L) (catch_alls : List String) where
  score_fields_count :
      (emitted : Json L) (fields : List (GoldField L))
      → ((score_fields py catch_alls emitted fields).landed
            + length (score_fields py catch_alls emitted fields).field_misses
          ≡ length fields)
        × ((score_fields py catch_alls emitted fields).preserved
              + length (score_fields py catch_alls emitted fields).value_misses
            ≡ (score_fields py catch_alls emitted fields).landed)
  unfolding score_fields score_field
  score_fields_count emitted [] = (omega arith, omega arith)
  score_fields_count emitted (f ∷ fields) =
      let s = score_fields py catch_alls emitted fields in
      let rest = score_fields_count emitted fields in
      elim (Option-cases (landed_value py catch_alls (get_path emitted f.ocsf) f.ocsf)) [
        | inl missed ↦ rw (missed) ground arith
        | inr (v, found) ↦ elim (Bool-cases (keeps_value py catch_alls v f.value)) [
          | inl kept ↦ rw (found, kept) ground arith
          | inr changed ↦ rw (found, changed) ground arith
        ]
      ]

  score_nothing-IsCounted : (g : GoldRecord L) → IsCounted (score_nothing py catch_alls g)
  unfolding score_nothing
  score_nothing-IsCounted g = record {
    fields =
        omega (arith, length-map (miss_of py catch_alls) (keep (is_homed py catch_alls) g.fields));
    values = omega arith;
    same = refl;
  }

  pub score_record-IsCounted :
      (g : GoldRecord L) (emitted : Option (Members L))
      → IsCounted (score_record py catch_alls g emitted)
  unfolding score_record score_output
  score_record-IsCounted g none = score_nothing-IsCounted g
  score_record-IsCounted g (some empty) = score_nothing-IsCounted g
  score_record-IsCounted g (some (Members.member k v ms)) =
      let counted =
        score_fields_count (object (Members.member k v ms))
          (keep (is_homed py catch_alls) g.fields) in
      record { fields = counted.0; values = counted.1; same = refl }

-- The counters after some records.
record IsTallied (n : ℕ) (t : Tally) : Type 0 where
  landed_le : t.fl ≤ t.ft
  landed_same : t.ve ≡ t.fl
  preserved_le : t.vo ≤ t.ve
  cls_le : t.cls_ok ≤ n
  act_le : t.act_ok ≤ n
  tuid_le : t.tuid_ok ≤ n
  repro_le : (name : String) → get_count name t.fc_repro ≤ get_count name t.fc_total
  names : IsDistinct (keys t.fc_total)

-- A quotient is one at most.
abbrev pub IsShare : Quotient → Type 0
IsShare q = q.0 ≤ q.1

-- The scores of a source.
abbrev pub shares : SourceScore → List Quotient
shares r =
    r.coverage ∷ r.field_fidelity ∷ r.value_fidelity ∷ r.class_assignment ∷ r.activity_id
    ∷ r.type_uid ∷ []
