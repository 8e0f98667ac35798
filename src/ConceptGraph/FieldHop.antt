-- ===== src/ConceptGraph/FieldHop.antt =====
-- Hop 1, security-context-graph/scg.py (`hop1_fields`): a source field, the OCSF field it is mapped
-- to, and the class, from the parsed bridge file.
use sdw_lab_benchmarks.Prelude.{ℕ, suc, String, Option, none, some, [], ◌∷◌, Dict, if◌then◌else◌}
use sdw_lab_benchmarks.Prelude.Text.{split}
use sdw_lab_benchmarks.Prelude.Edits.{is_blank, or_else, ◌⧺◌, strip, take_chars, first_of}
use sdw_lab_benchmarks.ConceptGraph.Ontology.{text_of}
use sdw_lab_benchmarks.ConceptGraph.Scaffold.{Scg, node, edge, number, Build, record_figure}

-- The entry of a field; a missing `basis` or `note` is empty.
pub record FieldSpec : Type 0 where
  pub ocsf : Option String
  pub basis : String
  pub note : String

-- The bridge file; `none` is an entry that is no dict.
pub record Bridge : Type 0 where
  pub target_class : Option String
  pub bridge : Dict String (Option FieldSpec)

abbrev pub bridge_file : String
bridge_file = "d3fend-wall/c1-fieldmapping/cim_ocsf_bridge.json"

pub record FieldLoop : Type 0 where
  pub scg : Scg
  pub n_mapped : ℕ
  pub n_unmapped : ℕ

abbrev pub class_id : String → String
class_id cls = "ocsf:class/" ⧺ cls

unfoldable pub field_note : FieldSpec → String
unfolding take_chars
field_note spec = take_chars 240 ("basis=" ⧺ (spec.basis ⧺ ("; " ⧺ spec.note)))

-- The body of the loop over the bridge.
unfoldable pub add_field : String → String → Option FieldSpec → FieldLoop → FieldLoop
unfolding node edge
add_field cls cim_field none s = s
add_field cls cim_field (some spec) s =
    let source = "src:cim/" ⧺ cim_field in
    let scg = node source "source_field" cim_field (("schema", some "splunk_cim") ∷ []) s.scg in
    let path = text_of spec.ocsf in
    let field = "ocsf:field/" ⧺ (cls ⧺ ("." ⧺ path)) in
    if is_blank path
    then record s {
      scg = edge source (class_id cls) "unmapped" "A" "measured" bridge_file (field_note spec) scg;
      n_unmapped = suc s.n_unmapped;
    }
    else record s {
      scg = edge field (class_id cls) "field_of" "A" "measured" bridge_file "" (
          edge source field "normalizes" "A" "measured" bridge_file (field_note spec)
            (node field "ocsf_field" path [] scg));
      n_mapped = suc s.n_mapped;
    }

unfoldable pub add_fields : String → Dict String (Option FieldSpec) → FieldLoop → FieldLoop
unfolding add_field
add_fields cls [] s = s
add_fields cls ((cim_field, spec) ∷ bridge) s =
    add_fields cls bridge (add_field cls cim_field spec s)

unfoldable pub target_class : Bridge → String
unfolding split strip
target_class file =
    or_else (strip (first_of (split "(" (or_else (text_of file.target_class) "unknown")))) "unknown"

-- `hop1_fields`; `none` where the bridge file does not exist
unfoldable pub hop1_fields : Option Bridge → Build → Build
unfolding add_fields target_class record_figure node
hop1_fields none b = record_figure "hop1_cim_fields" (number 0) b
hop1_fields (some file) b =
    let cls = target_class file in
    let s = add_fields cls file.bridge (record {
      scg = node (class_id cls) "ocsf_class" cls [] b.scg;
      n_mapped = 0;
      n_unmapped = 0;
    }) in
    record_figure "hop1_cim_unmapped" (number s.n_unmapped)
      (record_figure "hop1_cim_fields" (number s.n_mapped) (record b { scg = s.scg }))
