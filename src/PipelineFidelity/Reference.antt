-- ===== src/PipelineFidelity/Reference.antt =====
-- The reference event that `self_check` scores the gold against,
-- pipeline-normalization-fidelity/score.py (`_is_catch_all`, `_build_reference_emitted`), before its
-- `severity_id`. A gold value `None` is `none`; `identity` stands for the `_id`, `class_uid`,
-- `activity_id` and `type_uid` that open the event.
use sdw_lab_benchmarks.Prelude.{
  String, Bool, false, not, ◌||◌, Option, none, some, List, [], ◌∷◌, contains, ◌==◌, string_eq,
  if◌then◌else◌,
}
use sdw_lab_benchmarks.Prelude.Text.{split}
use sdw_lab_benchmarks.PipelineFidelity.Events.{Json, Members, set_path}

-- An entry of a gold record's `fields`.
pub record GoldField (L : Type 0) : Type 0 where
  pub field : String
  pub ocsf : String
  pub status : String
  pub value : Option (Json L)

-- `seg in catch_alls`, for the first segment
unfoldable pub heads_catch_all : List String → List String → Bool
heads_catch_all catch_alls [] = false
heads_catch_all catch_alls (seg ∷ segs) = contains catch_alls seg

unfoldable pub is_catch_all : List String → String → Bool
unfolding heads_catch_all
is_catch_all catch_alls path = heads_catch_all catch_alls (split "." path)

module _ {L : Type 0} (catch_alls : List String) where
  abbrev pub has_home : GoldField L → Bool
  has_home f = f.status == "typed" || f.status == "coerced"

  -- the body of the loop over the fields
  unfoldable pub write_field : Members L → GoldField L → Members L
  write_field ev f =
      if not (has_home f)
      then ev
      else if is_catch_all catch_alls f.ocsf
      then ev
      else elim f.value [ none ↦ ev | some v ↦ set_path ev f.ocsf v ]

  unfoldable pub write_fields : Members L → List (GoldField L) → Members L
  unfolding write_field
  write_fields ev [] = ev
  write_fields ev (f ∷ fields) = write_fields (write_field ev f) fields
