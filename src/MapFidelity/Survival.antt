-- ===== src/MapFidelity/Survival.antt =====
-- Which detections survive: what `score_detections` says of the scored fields.
use sdw_lab_benchmarks.Prelude.{
  String, true, ◌≡◌, ◌↔◌, refl, arith, Option, none, some, List, [], ◌∷◌, Dict, keys, lookup,
  insert, lookup-insert, lookup-eq-none_iff, IsDistinct, All, All-map, ◌==◌, string_eq, pair_eq,
  eq_iff, Option-cases, inl, inr, if◌then◌else◌, subst,
}
use sdw_lab_benchmarks.Prelude.Results.{ok, collect-All, >>=-eq-ok}
use sdw_lab_benchmarks.MapFidelity.Score.{Row, Scored}
use sdw_lab_benchmarks.MapFidelity.Detections.{
  Detection, Breaking, DetectionScore, Statuses, add_rows, status_by, breaking_fields, no_breaking,
  detection_score, score_detection, score_detections,
}

abbrev pub or_else : Option String → Option String → Option String
or_else none d = d
or_else (some s) d = some s

-- The status of a field among the rows of a source; of two rows for a field the later one counts.
abbrev pub last_status : String → List Row → Option String
last_status f [] = none
last_status f (r ∷ rows) =
    or_else (last_status f rows) (if f == r.field then some r.status else none)

abbrev pub status_of : Dict String Scored → String → String → Option String
status_of per_source s f = elim (lookup s per_source) [
  | none ↦ none
  | some scored ↦ last_status f scored.fields
]

lookup-add_rows :
    (s f source : String) (rows : List Row) (acc : Statuses)
    → lookup (s, f) (add_rows source rows acc) ≡ (
        if s == source then or_else (last_status f rows) (lookup (s, f) acc) else lookup (s, f) acc)
unfolding add_rows
lookup-add_rows s f source [] acc = ground arith
lookup-add_rows s f source (r ∷ rows) acc = ground (
  arith,
  lookup-add_rows s f source rows (insert (source, r.field) r.status acc),
  lookup-insert (source, r.field) (s, f) r.status acc,
)

lookup-status_by :
    (s f : String) (per_source : Dict String Scored) (acc : Statuses)
    → IsDistinct (keys per_source)
    → lookup (s, f) (status_by per_source acc)
      ≡ or_else (status_of per_source s f) (lookup (s, f) acc)
unfolding status_by lookup
lookup-status_by s f [] acc d = refl
lookup-status_by s f ((source, scored) ∷ rest) acc d = ground (
  arith,
  lookup-status_by s f rest (add_rows source scored.fields acc) d.1,
  lookup-add_rows s f source scored.fields acc,
  eq_iff s source,
  lookup-eq-none_iff source rest,
)

module _ (statuses : Statuses) (det : Detection) where
  abbrev IsTyped : String → Type 0
  IsTyped f = lookup (det.source, f) statuses ≡ some "typed"

  breaking_fields-empty_iff :
      (fields : List String) (breaking : List Breaking)
      → breaking_fields statuses det fields ≡ ok breaking
      → (no_breaking breaking ≡ true) ↔ All IsTyped fields
  unfolding breaking_fields
  breaking_fields-empty_iff [] breaking h = ground arith
  breaking_fields-empty_iff (f ∷ fields) breaking h =
      elim (Option-cases (lookup (det.source, f) statuses)) [
        | inl e ↦ absurd (ground arith)
        | inr (st, e) ↦
            let (rest, r, made) =
              >>=-eq-ok (breaking_fields statuses det fields) _ (rw (e, breaking_fields) at h) in
            ground (arith, breaking_fields-empty_iff fields rest r, eq_iff st "typed")
      ]

abbrev Tells : Statuses → DetectionScore → Type 0
Tells statuses ds =
    (ds.survives_clean ≡ true)
    ↔ All (λ f. lookup (ds.source, f) statuses ≡ some "typed") ds.fields_required

-- What a detection's score says, against the scored fields of all sources.
abbrev pub TellsSurvival : Dict String Scored → DetectionScore → Type 0
TellsSurvival per_source ds =
    (ds.survives_clean ≡ true)
    ↔ All (λ f. status_of per_source ds.source f ≡ some "typed") ds.fields_required

score_detection-ok :
    (statuses : Statuses) (det : Detection) (ds : DetectionScore)
    → score_detection statuses det ≡ ok ds
    → Tells statuses ds
unfolding score_detection
score_detection-ok statuses det ds h =
    let (breaking, b, made) = >>=-eq-ok (breaking_fields statuses det det.fields) _ h in
    let made' : detection_score det breaking ≡ ds = cc in
    subst (Tells statuses) made' (breaking_fields-empty_iff statuses det det.fields breaking b)

TellsSurvival-of_Tells :
    (per_source : Dict String Scored)
    → IsDistinct (keys per_source)
    → (ds : DetectionScore) → Tells (status_by per_source []) ds
    → TellsSurvival per_source ds
unfolding lookup
TellsSurvival-of_Tells per_source d ds t =
    let same = λ (f : String). lookup-status_by ds.source f per_source [] d in
    (
      λ s. All-map _ _ (λ f h. ground (arith, same f)) ds.fields_required (t.0 s),
      λ a. t.1 (All-map _ _ (λ f h. ground (arith, same f)) ds.fields_required a),
    )

-- Where the sources are distinct and `score_detections` returns, a detection survives exactly
-- when each field that it requires has the status "typed" among the scored fields of its source.
pub score_detections_survival :
    (per_source : Dict String Scored) (detections : List Detection) (scores : List DetectionScore)
    → IsDistinct (keys per_source)
    → score_detections per_source detections ≡ ok scores
    → All (TellsSurvival per_source) scores
unfolding score_detections
score_detections_survival per_source detections scores d h =
    All-map _ _ (TellsSurvival-of_Tells per_source d) scores (
      collect-All (Tells (status_by per_source [])) (score_detection (status_by per_source []))
        (score_detection-ok (status_by per_source [])) detections scores h)
