-- ===== src/MapFidelity/Walks.antt =====
-- What a resolved path is: a walk through the attributes of the schema.
use sdw_lab_benchmarks.Prelude.{
  String, Option, none, some, List, [], ◌∷◌, ◌≡◌, ◌↔◌, refl, arith, lookup, string_eq, Option-cases,
  inl, inr,
}
use sdw_lab_benchmarks.Prelude.Results.{ok}
use sdw_lab_benchmarks.Prelude.Text.{split}
use sdw_lab_benchmarks.MapFidelity.Schema.{
  OcsfSchema, OcsfClass, Attributes, Resolution, full, deep, descend, resolve_segments,
  resolve_ocsf_path,
}

-- From what an attribute refers to, the remaining segments lead on. A walk is `full` when each
-- segment is an attribute of the object before it; it is `deep` when it meets an object that the
-- subset does not transcribe, with a segment left.
pub data Walk (schema : OcsfSchema) : Option String → List String → Resolution → Type 0 where
  arrived : {ref : Option String} → Walk schema ref [] full
  untranscribed :
      {ref seg : String} {segs : List String}
      → lookup ref schema.objects ≡ none
      → Walk schema (some ref) (seg ∷ segs) deep
  step :
      {ref seg : String} {segs : List String} {obj : Attributes} {next : Option String}
      {kind : Resolution}
      → lookup ref schema.objects ≡ some obj
      → lookup seg obj ≡ some next
      → Walk schema next segs kind
      → Walk schema (some ref) (seg ∷ segs) kind

-- A path of a class: its first segment is an attribute of the class, and the others are a walk.
pub data ClassWalk (schema : OcsfSchema) (class_name : String) (kind : Resolution)
    : List String → Type 0 where
  from_class :
      {cls : OcsfClass} {seg : String} {segs : List String} {ref : Option String}
      → lookup class_name schema.classes ≡ some cls
      → lookup seg cls.attrs ≡ some ref
      → Walk schema ref segs kind
      → ClassWalk schema class_name kind (seg ∷ segs)

module _ (schema : OcsfSchema) (path : String) where
  descend-Walk :
      (ref : Option String) (segs : List String) {kind : Resolution}
      → descend schema path ref segs ≡ ok kind
      → Walk schema ref segs kind
  unfolding descend
  descend-Walk ref [] {kind} h = let e : full ≡ kind = cc in rw (← e) arrived
  descend-Walk none (seg ∷ segs) h = cc
  descend-Walk (some ref) (seg ∷ segs) {kind} h = elim (Option-cases (lookup ref schema.objects)) [
    | inl e ↦ let k : deep ≡ kind = ground arith in rw (← k) (untranscribed e)
    | inr (obj, e) ↦ elim (Option-cases (lookup seg obj)) [
      | inl f ↦ absurd (ground arith)
      | inr (next, f) ↦ step e f (descend-Walk next segs (rw (e, f, descend) at h))
    ]
  ]

  Walk-descend :
      {ref : Option String} {segs : List String} {kind : Resolution}
      → Walk schema ref segs kind
      → descend schema path ref segs ≡ ok kind
  unfolding descend
  Walk-descend arrived = refl
  Walk-descend (untranscribed e) = rw (e, descend)
  Walk-descend (step e f w) = rw (e, f, descend) (Walk-descend w)

module _ (schema : OcsfSchema) (class_name path : String) where
  resolve_segments-ClassWalk :
      (cls : OcsfClass) (segs : List String) {kind : Resolution}
      → lookup class_name schema.classes ≡ some cls
      → resolve_segments schema class_name path cls segs ≡ ok kind
      → ClassWalk schema class_name kind segs
  unfolding resolve_segments
  resolve_segments-ClassWalk cls [] c h = cc
  resolve_segments-ClassWalk cls (seg ∷ segs) {kind} c h =
      elim (Option-cases (lookup seg cls.attrs)) [
        | inl e ↦ absurd (ground arith)
        | inr (ref, e) ↦
            from_class c e (descend-Walk schema path ref segs (rw (e, resolve_segments) at h))
      ]

  ClassWalk-resolve :
      {segs : List String} {kind : Resolution}
      → ClassWalk schema class_name kind segs
      → (cls : OcsfClass) × (lookup class_name schema.classes ≡ some cls)
        × (resolve_segments schema class_name path cls segs ≡ ok kind)
  unfolding resolve_segments
  ClassWalk-resolve (from_class {cls} c e w) =
      (cls, c, rw (e, resolve_segments) (Walk-descend schema path w))

  -- `resolve_ocsf_path` returns a kind exactly when the path's segments are a walk of that kind
  -- from the class.
  pub resolve_ocsf_path-ok_iff :
      (kind : Resolution)
      → (resolve_ocsf_path schema class_name path ≡ ok kind)
        ↔ ClassWalk schema class_name kind (split "." path)
  unfolding resolve_ocsf_path
  resolve_ocsf_path-ok_iff kind = (
    λ h. elim (Option-cases (lookup class_name schema.classes)) [
      | inl e ↦ absurd (ground arith)
      | inr (cls, e) ↦
          resolve_segments-ClassWalk cls (split "." path) e (rw (e, resolve_ocsf_path) at h)
    ],
    λ w. let (cls, e, h) = ClassWalk-resolve w in rw (e, resolve_ocsf_path) h,
  )
