-- ===== src/MapFidelity/Schema.antt =====
-- The OCSF schema subset and the path validator of ocsf-mapping-fidelity/map_fidelity.py
-- (`resolve_ocsf_path`).
use sdw_lab_benchmarks.Prelude.{
  ℕ, String, Option, none, some, List, [], ◌∷◌, Dict, lookup, string_eq,
}
use sdw_lab_benchmarks.Prelude.Results.{Result, ok, raise}
use sdw_lab_benchmarks.Prelude.Text.{split}

-- An attribute is a scalar, or refers to an object by name.
abbrev pub Attributes : Type 0
Attributes = Dict String (Option String)

pub record OcsfClass : Type 0 where
  pub uid : ℕ
  pub attrs : Attributes

pub record OcsfSchema : Type 0 where
  pub version : String
  pub catch_alls : List String
  pub classes : Dict String OcsfClass
  pub objects : Dict String Attributes

pub data Resolution : Type 0 where
  full deep : Resolution

-- What the functions of the module raise.
pub data ScoreError : Type 0 where
  unknown_class : String → ScoreError
  not_class_attribute : String → String → String → ScoreError
  scalar_descent : String → ScoreError
  not_object_attribute : String → String → String → ScoreError
  unmapped_fields : String → List String → ScoreError
  unknown_fields : String → List String → ScoreError
  not_catch_all : String → String → ScoreError
  catch_all_status : String → String → String → ScoreError
  unknown_detection_field : String → String → String → ScoreError
  key_error : String → ScoreError
  index_error zero_division : ScoreError

-- The `while` loop: `ref` is what the segments so far refer to, the list those still to read.
unfoldable pub descend :
    OcsfSchema → String → Option String → List String → Result ScoreError Resolution
descend schema path ref [] = ok full
descend schema path none (seg ∷ segs) = raise (scalar_descent path)
descend schema path (some ref) (seg ∷ segs) = elim (lookup ref schema.objects) [
  | none ↦ ok deep
  | some obj ↦ elim (lookup seg obj) [
    | none ↦ raise (not_object_attribute path seg ref)
    | some next ↦ descend schema path next segs
  ]
]

unfoldable pub resolve_segments :
    OcsfSchema → String → String → OcsfClass → List String → Result ScoreError Resolution
unfolding descend
resolve_segments schema class_name path cls [] = raise index_error
resolve_segments schema class_name path cls (seg ∷ segs) = elim (lookup seg cls.attrs) [
  | none ↦ raise (not_class_attribute path seg class_name)
  | some ref ↦ descend schema path ref segs
]

unfoldable pub resolve_ocsf_path : OcsfSchema → String → String → Result ScoreError Resolution
unfolding resolve_segments
resolve_ocsf_path schema class_name path = elim (lookup class_name schema.classes) [
  | none ↦ raise (unknown_class class_name)
  | some cls ↦ resolve_segments schema class_name path cls (split "." path)
]
