-- ===== src/PipelineFidelity/Events.antt =====
-- An emitted event and the access by dotted paths, pipeline-normalization-fidelity/score.py
-- (`get_path`, `_set_path`). `L` holds every value that is no dict: the code tells only dicts from
-- other values. `(False, None)` is `none` and `(True, v)` is `some v`; a dict that Python changes in
-- place is given back changed.
use sdw_lab_benchmarks.Prelude.{
  String, Option, none, some, List, [], ◌∷◌, ◌==◌, string_eq, if◌then◌else◌,
}
use sdw_lab_benchmarks.Prelude.Text.{split}

mutual
  pub data Json (L : Type 0) : Type 0 where
    leaf : L → Json L
    object : Members L → Json L

  pub data Members (L : Type 0) : Type 0 where
    empty : Members L
    member : String → Json L → Members L → Members L

module _ {L : Type 0} where
  -- `d.get(k)`
  unfoldable pub find : String → Members L → Option (Json L)
  find k empty = none
  find k (member j v ms) = let rest = find k ms in if k == j then some v else rest

  -- `d[k] = v`
  unfoldable pub put : String → Json L → Members L → Members L
  put k v empty = member k v empty
  put k v (member j w ms) =
      let rest = put k v ms in if k == j then member j v ms else member j w rest

  -- the loop of `get_path` over the segments
  unfoldable pub get_segments : Json L → List String → Option (Json L)
  get_segments cur [] = some cur
  get_segments (leaf _) (seg ∷ segs) = none
  get_segments (object ms) (seg ∷ segs) = elim (find seg ms) [
    | none ↦ none
    | some next ↦ get_segments next segs
  ]

  unfoldable pub get_path : Json L → String → Option (Json L)
  unfolding get_segments
  get_path obj dotted = get_segments obj (split "." dotted)

  -- `cur.setdefault(seg, {})`, where it is a dict
  unfoldable pub enter : Option (Json L) → Option (Members L)
  enter none = some empty
  enter (some (leaf _)) = none
  enter (some (object ms)) = some ms

  -- the loop of `_set_path` over the segments, and the assignment at the last one
  unfoldable pub set_segments : Members L → List String → Json L → Members L
  unfolding enter find put
  set_segments ms [] v = ms
  set_segments ms (seg ∷ []) v = put seg v ms
  set_segments ms (seg ∷ next ∷ segs) v = elim (enter (find seg ms)) [
    | none ↦ ms
    | some inner ↦ put seg (object (set_segments inner (next ∷ segs) v)) ms
  ]

  unfoldable pub set_path : Members L → String → Json L → Members L
  unfolding set_segments
  set_path ms dotted v = set_segments ms (split "." dotted) v
