-- ===== src/ConceptGraph/EventHop.antt =====
-- Hops 2 and 2b, security-context-graph/scg.py (`hop2_ocsf_d3fend`, `hop2b_event_artifact`): OCSF
-- classes and objects, the D3FEND events linked to them, and the artifacts of the events.
use sdw_lab_benchmarks.Prelude.{
  ℕ, suc, String, Bool, some, List, [], ◌∷◌, Dict, ◌==◌, length, any_of, count_if, add, contains,
  string_eq, if◌then◌else◌,
}
use sdw_lab_benchmarks.Prelude.Text.{split, is_in}
use sdw_lab_benchmarks.Prelude.Edits.{or_else, ◌⧺◌, strip_end, last_of, first_of, replace}
use sdw_lab_benchmarks.ConceptGraph.Ontology.{
  Ontology, Thing, Types, one_type, type_list, label, refs_of, prop_of, refs, by_id,
}
use sdw_lab_benchmarks.ConceptGraph.Descendants.{collect_kids, subclass_descendants, leaves_of}
use sdw_lab_benchmarks.ConceptGraph.Scaffold.{
  NodeAttrs, Scg, node, edge, number, Build, record_figure,
}

abbrev pub link_file : String
link_file = "d3fend-wall/cache/d3fend_ontology.json (rdfs:seeAlso -> schema.ocsf.io)"

abbrev pub link_note : String
link_note = "reciprocal hyperlink, not an owl:equivalentClass axiom and not a per-record field"

-- Where a link leads to.
pub data Target : Type 0 where
  to_class to_object to_other : Target

-- `kind`; a category and any other target are treated alike.
unfoldable pub target_of : String → Target
unfolding is_in
target_of url =
    if is_in "/classes/" url
    then to_class
    else if is_in "/objects/" url
    then to_object
    else to_other

-- `tgt.rstrip("/").split("/")[-1]`
unfoldable pub last_part : String → String
unfolding split strip_end
last_part url = last_of (split "/" (strip_end "/" url))

pub record LinkLoop : Type 0 where
  pub scg : Scg
  pub pairs : ℕ
  pub event_class_links : ℕ
  pub distinct_classes : List String

-- The two edges of a link.
unfoldable pub link_edges : String → String → Scg → Scg
unfolding edge
link_edges o d scg =
    edge d o "seeAlso" "A" "doc_link" link_file link_note
      (edge o d "references" "A" "doc_link" link_file link_note scg)

-- The rest of the body of the loop, for a target that is an OCSF page.
unfoldable pub add_link : Thing → String → Target → LinkLoop → LinkLoop
unfolding node last_part label link_edges add
add_link n url to_class s =
    let cls = last_part url in
    let o = "ocsf:class/" ⧺ cls in
    record s {
      scg = link_edges o n.id (
          node o "ocsf_class" cls (("ocsf_url", some url) ∷ [])
            (node n.id "d3fend_event" (label n) [] s.scg));
      pairs = suc s.pairs;
      event_class_links = suc s.event_class_links;
      distinct_classes = add cls s.distinct_classes;
    }
add_link n url to_object s =
    let obj = last_part url in
    let o = "ocsf:object/" ⧺ obj in
    record s {
      scg = link_edges o n.id (
          node o "ocsf_object" obj (("ocsf_url", some url) ∷ [])
            (node n.id "d3fend_event" (label n) [] s.scg));
      pairs = suc s.pairs;
    }
add_link n url to_other s =
    let o = "ocsf:other/" ⧺ url in
    record s {
      scg =
          link_edges o n.id
            (node o "ocsf_other" url [] (node n.id "d3fend_event" (label n) [] s.scg));
      pairs = suc s.pairs;
    }

-- `"schema.ocsf.io" in str(tgt)`
unfoldable pub is_ocsf_page : String → Bool
unfolding is_in
is_ocsf_page url = is_in "schema.ocsf.io" url

unfoldable pub add_links : Thing → List String → LinkLoop → LinkLoop
unfolding add_link is_ocsf_page target_of
add_links n [] s = s
add_links n (url ∷ urls) s =
    add_links n urls (if is_ocsf_page url then add_link n url (target_of url) s else s)

unfoldable pub link_things : List Thing → LinkLoop → LinkLoop
unfolding add_links prop_of refs
link_things [] s = s
link_things (n ∷ ns) s = link_things ns (add_links n (refs_of "rdfs:seeAlso" n) s)

abbrev pub artifact_root : String
artifact_root = "d3f:DigitalArtifact"

-- `ont.digital_artifact_leaves()`
unfoldable pub artifact_leaves : Ontology → List String
unfolding leaves_of collect_kids subclass_descendants
artifact_leaves ont =
    leaves_of (collect_kids ont.graph []) (subclass_descendants ont.graph artifact_root)

unfoldable pub has_ocsf_page : Ontology → String → Bool
unfolding is_ocsf_page by_id prop_of refs
has_ocsf_page ont lid = any_of is_ocsf_page (refs_of "rdfs:seeAlso" (by_id ont lid))

unfoldable pub hop2_ocsf_d3fend : Ontology → Build → Build
unfolding link_things artifact_leaves has_ocsf_page record_figure
hop2_ocsf_d3fend ont b =
    let s =
      link_things ont.graph
        (record { scg = b.scg; pairs = 0; event_class_links = 0; distinct_classes = [] }) in
    let leaves = artifact_leaves ont in
    record_figure "leaves_with_ocsf_seealso" (number (count_if (has_ocsf_page ont) leaves)) (
      record_figure "digital_artifact_leaves" (number (length leaves)) (
        record_figure "ocsf_distinct_classes" (number (length s.distinct_classes)) (
          record_figure "ocsf_event_class_links" (number s.event_class_links)
            (record_figure "ocsf_seealso_pairs" (number s.pairs) (record b { scg = s.scg })))))

abbrev pub axiom_file : String
axiom_file = "d3fend-wall/cache/d3fend_ontology.json (event subClassOf restriction)"

abbrev pub axiom_note : String
axiom_note =
    "D3FEND event-class restriction linking the event-occurrent to its digital-artifact participant"

-- `r.get("@type") == "owl:Restriction"`
abbrev pub is_restriction : Types → Bool
is_restriction (one_type t) = t == "owl:Restriction"
is_restriction (type_list ts) = Bool.false

-- The relation of a restriction.
unfoldable pub event_relation : Thing → String
unfolding replace prop_of refs
event_relation r =
    let prop = replace "-" "_" (replace "d3f:" "" (first_of (refs_of "owl:onProperty" r))) in
    "event_" ⧺ or_else prop "involves"

pub record CountLoop : Type 0 where
  pub scg : Scg
  pub n : ℕ

-- The loop over the values of a restriction.
unfoldable pub add_artifacts :
    Ontology → List String → String → String → List String → CountLoop → CountLoop
unfolding node edge by_id label contains
add_artifacts ont art_desc eid rel [] s = s
add_artifacts ont art_desc eid rel (tgt ∷ tgts) s =
    let scg =
      edge eid tgt rel "A" "ontology_axiom" axiom_file axiom_note
        (node tgt "artifact" (label (by_id ont tgt)) [] s.scg) in
    add_artifacts ont art_desc eid rel tgts
      (if contains art_desc tgt then record { scg = scg; n = suc s.n } else s)

-- The loop over the superclasses of an event.
unfoldable pub add_restrictions :
    Ontology → List String → String → List String → CountLoop → CountLoop
unfolding add_artifacts event_relation by_id prop_of refs
add_restrictions ont art_desc eid [] s = s
add_restrictions ont art_desc eid (sc ∷ scs) s =
    let r = by_id ont sc in
    let found =
      add_artifacts ont art_desc eid (event_relation r) (refs_of "owl:someValuesFrom" r) s in
    add_restrictions ont art_desc eid scs (if is_restriction r.types then found else s)

unfoldable pub add_events : Ontology → List String → List String → CountLoop → CountLoop
unfolding add_restrictions by_id prop_of refs
add_events ont art_desc [] s = s
add_events ont art_desc (eid ∷ eids) s =
    add_events ont art_desc eids
      (add_restrictions ont art_desc eid (refs_of "rdfs:subClassOf" (by_id ont eid)) s)

-- `[nid for nid, a in scg.nodes.items() if a.get("ntype") == "d3fend_event"]`
unfoldable pub event_ids : Dict String NodeAttrs → List String
event_ids [] = []
event_ids ((nid, a) ∷ nodes) =
    let rest = event_ids nodes in if a.ntype == "d3fend_event" then nid ∷ rest else rest

unfoldable pub hop2b_event_artifact : Ontology → Build → Build
unfolding add_events event_ids subclass_descendants record_figure
hop2b_event_artifact ont b =
    let art_desc = subclass_descendants ont.graph artifact_root in
    let s = add_events ont art_desc (event_ids b.scg.nodes) (record { scg = b.scg; n = 0 }) in
    record_figure "hop2b_event_artifact_edges" (number s.n) (record b { scg = s.scg })
