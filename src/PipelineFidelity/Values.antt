-- ===== src/PipelineFidelity/Values.antt =====
-- Python's values as the scorer of pipeline-normalization-fidelity/score.py compares them (`_eq`).
use sdw_lab_benchmarks.Prelude.{◌≡◌, String, Bool, true, ◌&&◌, ◌||◌, ◌==◌, string_eq, if◌then◌else◌}
use sdw_lab_benchmarks.PipelineFidelity.Events.{Json}

-- What the language gives: `isinstance(v, bool)`, `isinstance(v, (int, float))`, `v == w`,
-- `float(v) == float(w)`, the text of `json.dumps` with sorted keys, and `v is None`.
pub record Python (L : Type 0) : Type 0 where
  pub is_bool : Json L → Bool
  pub is_number : Json L → Bool
  pub plain_eq : Json L → Json L → Bool
  pub float_eq : Json L → Json L → Bool
  pub canonical : Json L → String
  pub is_none : Json L → Bool

-- No value of the gold key is a NaN, the one value that does not equal itself.
pub record IsReflexive {L : Type 0} (py : Python L) : Type 0 where
  pub plain_refl : (v : Json L) → py.plain_eq v v ≡ true
  pub float_refl : (v : Json L) → py.float_eq v v ≡ true

-- `_eq`
unfoldable pub eq_values : {L : Type 0} → Python L → Json L → Json L → Bool
eq_values py a b =
    if py.is_bool a || py.is_bool b
    then py.plain_eq a b
    else if py.is_number a && py.is_number b
    then py.float_eq a b
    else py.canonical a == py.canonical b
