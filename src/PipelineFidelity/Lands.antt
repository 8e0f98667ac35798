-- ===== src/PipelineFidelity/Lands.antt =====
-- The reference event carries the gold values.
use mathlib.Core.List.{Memᴰ}
use mathlib.Core.List.Memᴰ as Member
use sdw_lab_benchmarks.Prelude.{
  ◌⊎◌, String, true, false, ◌≡◌, refl, arith, some, List, [], ◌∷◌, string_eq, eq_iff, Bool-cases,
  Option-cases, inl, inr, ◌∙◌, All,
}
use sdw_lab_benchmarks.Prelude.Text.{split, split-cons}
use sdw_lab_benchmarks.PipelineFidelity.Events.{Json, object, Members, get_path, set_path}
use sdw_lab_benchmarks.PipelineFidelity.Writes.{
  is_blocked, diverge, get_segments-set_segments, get_segments-set_segments_other, is_blocked-set,
}
use sdw_lab_benchmarks.PipelineFidelity.Reference.{
  GoldField, is_catch_all, has_home, write_field, write_fields,
}

diverge_comm : (p q : List String) → diverge p q ≡ diverge q p
diverge_comm [] [] = refl
diverge_comm [] (t ∷ q) = refl
diverge_comm (s ∷ p) [] = refl
diverge_comm (s ∷ p) (t ∷ q) = ground (arith, diverge_comm p q, eq_iff s t, eq_iff t s)

abbrev pub segments : String → List String
segments = split "."

module _ {L : Type 0} where
  -- The path leads to no value that is no dict before its last segment.
  abbrev pub IsFree : Members L → String → Type 0
  IsFree ev path = is_blocked ev (segments path) ≡ false

  -- The fields have targets of which none is another's beginning.
  abbrev pub AllDiverge : List (GoldField L) → Type 0
  AllDiverge [] = Unit
  AllDiverge (f ∷ fields) =
      All (λ (g : GoldField L). diverge (segments f.ocsf) (segments g.ocsf) ≡ true) fields
      × AllDiverge fields

  get_path-set_path :
      (ev : Members L) (path : String) (v : Json L)
      → IsFree ev path
      → get_path (object (set_path ev path v)) path ≡ some v
  unfolding get_path set_path
  get_path-set_path ev path v free =
      let (w, ws, e) = split-cons "." path in
      let free' = rw e at free in rw e (get_segments-set_segments ev w ws v ∙ rw free' refl)

  get_path-set_path_other :
      (ev : Members L) (path other : String) (v : Json L)
      → diverge (segments path) (segments other) ≡ true
      → get_path (object (set_path ev path v)) other ≡ get_path (object ev) other
  unfolding get_path set_path
  get_path-set_path_other ev path other v d =
      get_segments-set_segments_other ev (segments path) (segments other) v d

module _ {L : Type 0} (catch_alls : List String) where
  write_field-cases :
      (ev : Members L) (f : GoldField L)
      → (write_field catch_alls ev f ≡ ev)
        ⊎ ((v : Json L) × (write_field catch_alls ev f ≡ set_path ev f.ocsf v))
  unfolding write_field
  write_field-cases ev f = elim (Bool-cases (has_home catch_alls f)) [
    | inr homeless ↦ inl (rw (homeless, write_field) refl)
    | inl homed ↦ elim (Bool-cases (is_catch_all catch_alls f.ocsf)) [
      | inl caught ↦ inl (rw (homed, caught, write_field) refl)
      | inr kept ↦ elim (Option-cases f.value) [
        | inl e ↦ inl (rw (homed, kept, e, write_field) refl)
        | inr (v, e) ↦ inr (v, rw (homed, kept, e, write_field) refl)
      ]
    ]
  ]

  write_field-other :
      (ev : Members L) (f : GoldField L) (path : String)
      → diverge (segments f.ocsf) (segments path) ≡ true
      → (get_path (object (write_field catch_alls ev f)) path ≡ get_path (object ev) path)
        × (is_blocked (write_field catch_alls ev f) (segments path) ≡ is_blocked ev (segments path))
  write_field-other ev f path d = elim (write_field-cases ev f) [
    | inl e ↦ rw e (refl, refl)
    | inr (v, e) ↦ rw e (
      get_path-set_path_other ev f.ocsf path v d,
      unfold set_path in is_blocked-set ev (segments f.ocsf) (segments path) v d,
    )
  ]

  write_fields-other :
      (ev : Members L) (fields : List (GoldField L)) (path : String)
      → All (λ (g : GoldField L). diverge (segments path) (segments g.ocsf) ≡ true) fields
      → get_path (object (write_fields catch_alls ev fields)) path ≡ get_path (object ev) path
  unfolding write_fields
  write_fields-other ev [] path d = refl
  write_fields-other ev (g ∷ fields) path d =
      let apart = diverge_comm (segments g.ocsf) (segments path) ∙ d.0 in
      write_fields-other (write_field catch_alls ev g) fields path d.1
      ∙ (write_field-other ev g path apart).0

  IsFree-after :
      (ev : Members L) (g : GoldField L) (rest : List (GoldField L))
      → All (λ (h : GoldField L). diverge (segments g.ocsf) (segments h.ocsf) ≡ true) rest
      → All (λ (h : GoldField L). IsFree ev h.ocsf) rest
      → All (λ (h : GoldField L). IsFree (write_field catch_alls ev g) h.ocsf) rest
  IsFree-after ev g [] d free = tt
  IsFree-after ev g (h ∷ rest) d free =
      ((write_field-other ev g h.ocsf d.0).1 ∙ free.0, IsFree-after ev g rest d.1 free.1)

  carries_first :
      (ev : Members L) (f : GoldField L) (fields : List (GoldField L)) (v : Json L)
      → All (λ (g : GoldField L). diverge (segments f.ocsf) (segments g.ocsf) ≡ true) fields
      → IsFree ev f.ocsf
      → has_home catch_alls f ≡ true
      → is_catch_all catch_alls f.ocsf ≡ false
      → f.value ≡ some v
      → get_path (object (write_fields catch_alls (write_field catch_alls ev f) fields)) f.ocsf
        ≡ some v
  carries_first ev f fields v d free homed kept e =
      let written : write_field catch_alls ev f ≡ set_path ev f.ocsf v =
        (unfold write_field in rw (homed, kept, e) refl) in
      write_fields-other (write_field catch_alls ev f) fields f.ocsf d
      ∙ rw written (get_path-set_path ev f.ocsf v free)

  -- Where no target is another's beginning and no value of the event that is no dict sits on the way
  -- to one, writing the gold fields gives an event that carries the value of every field that is
  -- "typed" or "coerced", has a value, and does not go to a catch-all, at the field's target.
  pub reference_carries :
      (ev : Members L) (fields : List (GoldField L)) (f : GoldField L) (v : Json L)
      → AllDiverge fields
      → All (λ (g : GoldField L). IsFree ev g.ocsf) fields
      → Memᴰ f fields
      → has_home catch_alls f ≡ true
      → is_catch_all catch_alls f.ocsf ≡ false
      → f.value ≡ some v
      → get_path (object (write_fields catch_alls ev fields)) f.ocsf ≡ some v
  unfolding write_fields
  reference_carries ev [] f v d free m homed kept e = elim m [ ]
  reference_carries ev (g ∷ fields) f v d free m homed kept e = elim (Member.cases_cons m) [
    | inl same ↦
        let homed' = rw same at homed in
        let kept' = rw same at kept in
        let e' = rw same at e in rw same (carries_first ev g fields v d.0 free.0 homed' kept' e')
    | inr later ↦
        let still = IsFree-after ev g fields d.0 free.1 in
        reference_carries (write_field catch_alls ev g) fields f v d.1 still later homed kept e
  ]
