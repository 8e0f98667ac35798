-- ===== src/PipelineFidelity/MergedSchema.antt =====
-- The schema of the scorer, pipeline-normalization-fidelity/score.py (`load_merged_schema`), from the
-- two parsed subsets.
use sdw_lab_benchmarks.Prelude.{
  ◌≡◌, refl, arith, String, true, Bool-cases, inl, inr, List, Option, none, some, [], ◌∷◌, ◌++◌,
  Dict, keys, lookup, insert, lookup-insert, contains, IsDistinct, to_set, sort_by, string_eq,
  eq_iff, if◌then◌else◌,
}
use sdw_lab_benchmarks.Prelude.TextOrder.{text_le}
use sdw_lab_benchmarks.Prelude.Results.{ok}
use sdw_lab_benchmarks.MapFidelity.Schema.{
  OcsfSchema, OcsfClass, Attributes, Resolution, full, resolve_ocsf_path,
}
use sdw_lab_benchmarks.MapFidelity.Walks.{
  Walk, arrived, untranscribed, step, ClassWalk, from_class, resolve_ocsf_path-ok_iff,
}

-- `d.update(e)`
unfoldable pub update {ℓ} : {V : Type ℓ} → Dict String V → Dict String V → Dict String V
unfolding insert
update d [] = d
update d ((k, v) ∷ e) = update (insert k v d) e

unfoldable pub load_merged_schema : OcsfSchema → OcsfSchema → OcsfSchema
unfolding update sort_by text_le to_set
load_merged_schema schema ext = record schema {
  classes = update schema.classes ext.classes;
  objects = update schema.objects ext.objects;
  catch_alls = sort_by text_le (to_set (schema.catch_alls ++ ext.catch_alls) []);
}

lookup-update {ℓ} :
    {V : Type ℓ} (d e : Dict String V) (k : String)
    → IsDistinct (keys e)
    → lookup k (update d e) ≡ (if contains (keys e) k then lookup k e else lookup k d)
unfolding update lookup contains
lookup-update d [] k distinct = refl
lookup-update d ((j, v) ∷ e) k distinct =
    ground (arith, lookup-update (insert j v d) e k distinct.1, lookup-insert j k v d, eq_iff k j)

-- An entry that the second dict does not name stays.
lookup-update_kept {ℓ} :
    {V : Type ℓ} (d e : Dict String V) (k : String) (v : V)
    → IsDistinct (keys e)
    → (contains (keys e) k ≡ true → lookup k d ≡ none)
    → lookup k d ≡ some v
    → lookup k (update d e) ≡ some v
lookup-update_kept d e k v distinct new there = elim (Bool-cases (contains (keys e) k)) [
  | inl named ↦ absurd (let missing = new named in cc)
  | inr other ↦ rw (lookup-update d e k distinct, other) there
]

-- The extension only adds: it names no class and no object that the subset has.
pub record IsExtension (schema ext : OcsfSchema) : Type 0 where
  pub classes_once : IsDistinct (keys ext.classes)
  pub objects_once : IsDistinct (keys ext.objects)
  pub new_classes :
      (name : String) → contains (keys ext.classes) name ≡ true → lookup name schema.classes ≡ none
  pub new_objects :
      (name : String) → contains (keys ext.objects) name ≡ true → lookup name schema.objects ≡ none

module _ (schema ext : OcsfSchema) (x : IsExtension schema ext) where
  merged_object :
      (name : String) (obj : Attributes)
      → lookup name schema.objects ≡ some obj
      → lookup name (load_merged_schema schema ext).objects ≡ some obj
  unfolding load_merged_schema
  merged_object name obj =
      lookup-update_kept schema.objects ext.objects name obj x.objects_once (x.new_objects name)

  merged_class :
      (name : String) (cls : OcsfClass)
      → lookup name schema.classes ≡ some cls
      → lookup name (load_merged_schema schema ext).classes ≡ some cls
  unfolding load_merged_schema
  merged_class name cls =
      lookup-update_kept schema.classes ext.classes name cls x.classes_once (x.new_classes name)

  merged-Walk :
      {ref : Option String} {segs : List String} {kind : Resolution}
      → kind ≡ full
      → Walk schema ref segs kind
      → Walk (load_merged_schema schema ext) ref segs kind
  merged-Walk is_full arrived = arrived
  merged-Walk is_full (untranscribed e) = absurd cc
  merged-Walk is_full (step {obj} e f w) = step (merged_object _ obj e) f (merged-Walk is_full w)

  merged-ClassWalk :
      (class_name : String) {segs : List String}
      → ClassWalk schema class_name full segs
      → ClassWalk (load_merged_schema schema ext) class_name full segs
  merged-ClassWalk class_name (from_class {cls} c e w) =
      from_class (merged_class class_name cls c) e (merged-Walk refl w)

  -- Where the extension names no class and no object of the subset, and none twice, each path that
  -- `resolve_ocsf_path` resolves fully in the subset it resolves fully in the merged schema.
  pub merged_resolves :
      (class_name path : String)
      → resolve_ocsf_path schema class_name path ≡ ok full
      → resolve_ocsf_path (load_merged_schema schema ext) class_name path ≡ ok full
  merged_resolves class_name path h =
      (resolve_ocsf_path-ok_iff (load_merged_schema schema ext) class_name path full).1
        (merged-ClassWalk class_name ((resolve_ocsf_path-ok_iff schema class_name path full).0 h))
