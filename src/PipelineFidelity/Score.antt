-- ===== src/PipelineFidelity/Score.antt =====
-- The score of one emitted event against its gold record,
-- pipeline-normalization-fidelity/score.py (`score_record`, `_score_failure_classes`). The texts of the
-- reasons are left out.
use sdw_lab_benchmarks.Prelude.{
  ℕ, suc, String, Bool, true, false, not, ◌&&◌, ◌||◌, Option, none, some, List, [], ◌∷◌, Dict, ◌==◌,
  map, keep, length, all_of, string_eq, if◌then◌else◌,
}
use sdw_lab_benchmarks.PipelineFidelity.Events.{Json, Members, object, empty, get_path}
use sdw_lab_benchmarks.PipelineFidelity.Reference.{GoldField, is_catch_all}
use sdw_lab_benchmarks.PipelineFidelity.Values.{Python, eq_values}

-- A probe of a failure class; missing lists are empty.
pub record Probe (L : Type 0) : Type 0 where
  pub expect_paths : List String
  pub expected_severity_id : Option (Json L)
  pub expect : Dict String (Json L)
  pub note : String

pub record GoldRecord (L : Type 0) : Type 0 where
  pub id : String
  pub cls : String
  pub class_uid : Json L
  pub activity_id : Json L
  pub type_uid : Json L
  pub fields : List (GoldField L)
  pub semantic : Dict String (Probe L)

-- An entry of `misses`: the gold field and its target.
pub record Miss : Type 0 where
  pub field : String
  pub ocsf : String
  pub tier : String

pub record Verdict : Type 0 where
  pub reproduced : Bool
  pub note : String

-- The score of a record.
pub record RecordScore : Type 0 where
  pub total : ℕ
  pub landed : ℕ
  pub field_misses : List Miss
  pub eligible : ℕ
  pub preserved : ℕ
  pub value_misses : List Miss
  pub class_uid_ok : Bool
  pub activity_id_ok : Bool
  pub type_uid_ok : Bool
  pub failure_classes : Dict String Verdict

-- What the loop over the homed fields counts.
pub record MissLoop : Type 0 where
  pub landed : ℕ
  pub field_misses : List Miss
  pub preserved : ℕ
  pub value_misses : List Miss

module _ {L : Type 0} (py : Python L) (catch_alls : List String) where
  -- `val is not None`
  abbrev pub is_value : Json L → Bool
  is_value v = not (py.is_none v)

  -- The test of the comprehension `homed`.
  abbrev pub is_homed : GoldField L → Bool
  is_homed f =
      (f.status == "typed" || f.status == "coerced")
      && (elim f.value [ none ↦ false | some v ↦ is_value v ])

  -- `get_path(emitted, p)` where it is present, not None, and no catch-all
  unfoldable pub landed_value : Option (Json L) → String → Option (Json L)
  unfolding is_catch_all
  landed_value none p = none
  landed_value (some v) p = if is_value v && not (is_catch_all catch_alls p) then some v else none

  abbrev pub miss_of : GoldField L → Miss
  miss_of f = record { field = f.field; ocsf = f.ocsf; tier = f.status }

  -- `_eq(val, rec["value"])`
  abbrev pub keeps_value : Json L → Option (Json L) → Bool
  unfolding eq_values
  keeps_value v none = false
  keeps_value v (some w) = eq_values py v w

  -- The body of the loop, after the fields behind this one have been scored.
  unfoldable pub score_field : GoldField L → Option (Json L) → MissLoop → MissLoop
  unfolding keeps_value
  score_field f none s = record s { field_misses = miss_of f ∷ s.field_misses }
  score_field f (some v) s =
      if keeps_value v f.value
      then record s { landed = suc s.landed; preserved = suc s.preserved }
      else record s { landed = suc s.landed; value_misses = miss_of f ∷ s.value_misses }

  unfoldable pub score_fields : Json L → List (GoldField L) → MissLoop
  unfolding score_field landed_value get_path
  score_fields emitted [] = record {
    landed = 0;
    field_misses = [];
    preserved = 0;
    value_misses = [];
  }
  score_fields emitted (f ∷ fields) =
      score_field f (landed_value (get_path emitted f.ocsf) f.ocsf) (score_fields emitted fields)

  -- `get_path(emitted, p)[1] == want`, where an absent path gives None
  abbrev pub plain_found : Option (Json L) → Json L → Bool
  plain_found none want = py.is_none want
  plain_found (some v) want = py.plain_eq v want

  -- The value at a path is present and equals the wanted one.
  abbrev pub found_eq : (Json L → Json L → Bool) → Option (Json L) → Json L → Bool
  found_eq same none want = false
  found_eq same (some v) want = same v want

  abbrev pub is_some : Option (Json L) → Bool
  is_some none = false
  is_some (some v) = true

  -- A path of `expect` that only labels the record is passed over.
  abbrev pub is_label : String → Bool
  is_label path = path == "is_error" || path == "is_failure"

  -- Whether the expectations of a probe hold.
  unfoldable pub probe_holds : Json L → Probe L → Bool
  unfolding landed_value get_path eq_values
  probe_holds emitted p =
      all_of (λ path. is_some (landed_value (get_path emitted path) path)) p.expect_paths
      && (elim p.expected_severity_id [
        | none ↦ true
        | some want ↦ found_eq (eq_values py) (get_path emitted "severity_id") want
      ])
      && all_of
          (λ (q : String × Json L).
            is_label q.0 || found_eq (eq_values py) (get_path emitted q.0) q.1)
          p.expect

  -- `_score_failure_classes`
  unfoldable pub score_failure_classes : Json L → Dict String (Probe L) → Dict String Verdict
  unfolding probe_holds
  score_failure_classes emitted [] = []
  score_failure_classes emitted ((name, p) ∷ probes) =
      (name, record { reproduced = not (probe_holds emitted p); note = p.note })
      ∷ score_failure_classes emitted probes

  -- the verdicts of a record without output
  unfoldable pub all_reproduced : Dict String (Probe L) → Dict String Verdict
  all_reproduced [] = []
  all_reproduced ((name, p) ∷ probes) =
      (name, record { reproduced = true; note = "" }) ∷ all_reproduced probes

  abbrev pub has_output : Option (Members L) → Bool
  has_output none = false
  has_output (some empty) = false
  has_output (some (Members.member k v ms)) = true

  -- `score_record` of an event, where there is output
  unfoldable pub score_output : GoldRecord L → Json L → RecordScore
  unfolding score_fields score_failure_classes get_path
  score_output g emitted =
      let homed = keep is_homed g.fields in
      let s = score_fields emitted homed in
      record {
        total = length homed;
        landed = s.landed;
        field_misses = s.field_misses;
        eligible = s.landed;
        preserved = s.preserved;
        value_misses = s.value_misses;
        class_uid_ok = plain_found (get_path emitted "class_uid") g.class_uid;
        activity_id_ok = plain_found (get_path emitted "activity_id") g.activity_id;
        type_uid_ok = plain_found (get_path emitted "type_uid") g.type_uid;
        failure_classes = score_failure_classes emitted g.semantic;
      }

  -- where there is none
  unfoldable pub score_nothing : GoldRecord L → RecordScore
  unfolding all_reproduced
  score_nothing g =
      let homed = keep is_homed g.fields in
      record {
        total = length homed;
        landed = 0;
        field_misses = map miss_of homed;
        eligible = 0;
        preserved = 0;
        value_misses = [];
        class_uid_ok = false;
        activity_id_ok = false;
        type_uid_ok = false;
        failure_classes = all_reproduced g.semantic;
      }

  unfoldable pub score_record : GoldRecord L → Option (Members L) → RecordScore
  unfolding score_output score_nothing
  score_record g none = score_nothing g
  score_record g (some empty) = score_nothing g
  score_record g (some (Members.member k v ms)) = score_output g (object (Members.member k v ms))
