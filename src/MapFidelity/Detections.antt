-- ===== src/MapFidelity/Detections.antt =====
-- The named detections against the scored fields, map_fidelity.py (`score_detections`,
-- `score_all`).
use sdw_lab_benchmarks.Prelude.{
  String, Bool, true, false, none, some, List, [], ◌∷◌, Dict, lookup, insert, ◌==◌, string_eq,
  pair_eq, if◌then◌else◌,
}
use sdw_lab_benchmarks.Prelude.Results.{Result, ok, raise, collect, ◌>>=◌}
use sdw_lab_benchmarks.MapFidelity.Schema.{ScoreError, unknown_detection_field}
use sdw_lab_benchmarks.MapFidelity.Score.{Row, Scored}

pub record Detection : Type 0 where
  pub name : String
  pub source : String
  pub desc : String
  pub fields : List String

pub record Breaking : Type 0 where
  pub field : String
  pub status : String

pub record DetectionScore : Type 0 where
  pub name : String
  pub source : String
  pub desc : String
  pub fields_required : List String
  pub breaking : List Breaking
  pub survives_clean : Bool

abbrev pub Statuses : Type 0
Statuses = Dict (String × String) String

-- the two loops that fill `status_by`
unfoldable pub add_rows : String → List Row → Statuses → Statuses
add_rows source [] statuses = statuses
add_rows source (r ∷ rows) statuses =
    add_rows source rows (insert (source, r.field) r.status statuses)

unfoldable pub status_by : Dict String Scored → Statuses → Statuses
unfolding add_rows
status_by [] statuses = statuses
status_by ((source, scored) ∷ rest) statuses =
    status_by rest (add_rows source scored.fields statuses)

-- the inner loop: the fields of a detection whose status is not "typed"
unfoldable pub breaking_fields :
    Statuses → Detection → List String → Result ScoreError (List Breaking)
breaking_fields statuses det [] = ok []
breaking_fields statuses det (field ∷ fields) = elim (lookup (det.source, field) statuses) [
  | none ↦ raise (unknown_detection_field det.name det.source field)
  | some st ↦ do
    rest ← breaking_fields statuses det fields
    ok (if st == "typed" then rest else record { field = field; status = st } ∷ rest)
]

abbrev pub no_breaking : List Breaking → Bool
no_breaking [] = true
no_breaking (b ∷ bs) = false

unfoldable pub detection_score : Detection → List Breaking → DetectionScore
detection_score det breaking = record {
  name = det.name;
  source = det.source;
  desc = det.desc;
  fields_required = det.fields;
  breaking = breaking;
  survives_clean = no_breaking breaking;
}

unfoldable pub score_detection : Statuses → Detection → Result ScoreError DetectionScore
unfolding breaking_fields detection_score
score_detection statuses det = do
  breaking ← breaking_fields statuses det det.fields
  ok (detection_score det breaking)

unfoldable pub score_detections :
    Dict String Scored → List Detection → Result ScoreError (List DetectionScore)
unfolding status_by score_detection
score_detections per_source detections =
    let statuses = status_by per_source [] in collect (score_detection statuses) detections
