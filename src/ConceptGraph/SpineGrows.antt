-- ===== src/ConceptGraph/SpineGrows.antt =====
-- The hops over the bridge file and the ontology only add to the graph.
use sdw_lab_benchmarks.Prelude.{
  suc, ◌||◌, ◌==◌, string_eq, eq_iff, keys, contains, All, All-map, ◌≡◌, arith, String, true,
  Option, none, some, List, [], ◌∷◌, Dict, Bool-cases, inl, inr, if◌then◌else◌,
}
use sdw_lab_benchmarks.Prelude.Edits.{is_blank}
use sdw_lab_benchmarks.ConceptGraph.Ontology.{Ontology, Thing, text_of, label, by_id, refs_of}
use sdw_lab_benchmarks.ConceptGraph.Scaffold.{NodeAttrs, has_node, node, edge, record_figure, Build}
use sdw_lab_benchmarks.ConceptGraph.Grows.{
  is_concept, is_rated, Grows, has_node_self, Grows-has_node, Grows-refl, Grows-trans, Grows-if,
  growing,
}
use sdw_lab_benchmarks.ConceptGraph.FieldHop.{
  FieldSpec, Bridge, FieldLoop, add_field, add_fields, hop1_fields, class_id, target_class,
}
use sdw_lab_benchmarks.ConceptGraph.EventHop.{
  Target, to_class, to_object, to_other, LinkLoop, target_of, is_ocsf_page, add_link, add_links,
  link_things, hop2_ocsf_d3fend, CountLoop, is_restriction, event_relation, axiom_file, axiom_note,
  add_artifacts, add_restrictions, add_events, event_ids, artifact_root, hop2b_event_artifact,
}
use sdw_lab_benchmarks.ConceptGraph.Descendants.{subclass_descendants}

add_field-Grows :
    (cls cim_field : String) (spec : Option FieldSpec) (s : FieldLoop)
    → has_node s.scg (class_id cls) ≡ true
    → Grows s.scg (add_field cls cim_field spec s).scg
unfolding add_field is_concept is_rated
add_field-Grows cls cim_field none s h = Grows-refl s.scg
add_field-Grows cls cim_field (some spec) s h = elim (Bool-cases (is_blank (text_of spec.ocsf))) [
  | inl blank ↦ rw (blank) (search growing depth 12)
  | inr mapped ↦ rw (mapped) (search growing depth 12)
]

add_fields-Grows :
    (cls : String) (bridge : Dict String (Option FieldSpec)) (s : FieldLoop)
    → has_node s.scg (class_id cls) ≡ true
    → Grows s.scg (add_fields cls bridge s).scg
unfolding add_fields
add_fields-Grows cls [] s h = Grows-refl s.scg
add_fields-Grows cls ((cim_field, spec) ∷ bridge) s h =
    let first = add_field-Grows cls cim_field spec s h in
    let here = Grows-has_node first (class_id cls) h in
    Grows-trans first (add_fields-Grows cls bridge (add_field cls cim_field spec s) here)

pub hop1_fields-Grows : (file : Option Bridge) (b : Build) → Grows b.scg (hop1_fields file b).scg
unfolding hop1_fields record_figure is_concept
hop1_fields-Grows none b = Grows-refl b.scg
hop1_fields-Grows (some file) b =
    let cls = target_class file in
    let scg = node (class_id cls) "ocsf_class" cls [] b.scg in
    let start : FieldLoop = record { scg = scg; n_mapped = 0; n_unmapped = 0 } in
    let first : Grows b.scg scg = search growing in
    Grows-trans first (
      add_fields-Grows cls file.bridge start
        (has_node_self (class_id cls) "ocsf_class" cls [] b.scg))

add_link-Grows :
    (n : Thing) (url : String) (target : Target) (s : LinkLoop)
    → Grows s.scg (add_link n url target s).scg
unfolding add_link is_concept is_rated
add_link-Grows n url to_class s = search growing depth 12
add_link-Grows n url to_object s = search growing depth 12
add_link-Grows n url to_other s = search growing depth 12

add_links-Grows :
    (n : Thing) (urls : List String) (s : LinkLoop) → Grows s.scg (add_links n urls s).scg
unfolding add_links
add_links-Grows n [] s = Grows-refl s.scg
add_links-Grows n (url ∷ urls) s =
    let linked = add_link n url (target_of url) s in
    let step =
      Grows-if (λ (t : LinkLoop). t.scg) (is_ocsf_page url) s linked
        (add_link-Grows n url (target_of url) s) in
    Grows-trans step (add_links-Grows n urls (if is_ocsf_page url then linked else s))

link_things-Grows : (ns : List Thing) (s : LinkLoop) → Grows s.scg (link_things ns s).scg
unfolding link_things
link_things-Grows [] s = Grows-refl s.scg
link_things-Grows (n ∷ ns) s =
    Grows-trans (add_links-Grows n (refs_of "rdfs:seeAlso" n) s) (link_things-Grows ns _)

pub hop2_ocsf_d3fend-Grows : (ont : Ontology) (b : Build) → Grows b.scg (hop2_ocsf_d3fend ont b).scg
unfolding hop2_ocsf_d3fend record_figure
hop2_ocsf_d3fend-Grows ont b = link_things-Grows ont.graph _

-- The nodes of the events are in the graph before the hop.
add_artifacts-Grows :
    (ont : Ontology) (art_desc : List String) (eid rel : String) (tgts : List String)
    (s : CountLoop)
    → has_node s.scg eid ≡ true
    → Grows s.scg (add_artifacts ont art_desc eid rel tgts s).scg
unfolding add_artifacts is_concept is_rated
add_artifacts-Grows ont art_desc eid rel [] s h = Grows-refl s.scg
add_artifacts-Grows ont art_desc eid rel (tgt ∷ tgts) s h =
    let scg' =
      edge eid tgt rel "A" "ontology_axiom" axiom_file axiom_note
        (node tgt "artifact" (label (by_id ont tgt)) [] s.scg) in
    let next : CountLoop = record { scg = scg'; n = suc s.n } in
    let grown : Grows s.scg scg' = search growing depth 12 in
    let step = Grows-if (λ (t : CountLoop). t.scg) (contains art_desc tgt) s next grown in
    Grows-trans step (
      add_artifacts-Grows ont art_desc eid rel tgts (if contains art_desc tgt then next else s)
        (Grows-has_node step eid h))

add_restrictions-Grows :
    (ont : Ontology) (art_desc : List String) (eid : String) (scs : List String) (s : CountLoop)
    → has_node s.scg eid ≡ true
    → Grows s.scg (add_restrictions ont art_desc eid scs s).scg
unfolding add_restrictions
add_restrictions-Grows ont art_desc eid [] s h = Grows-refl s.scg
add_restrictions-Grows ont art_desc eid (sc ∷ scs) s h =
    let r = by_id ont sc in
    let values = refs_of "owl:someValuesFrom" r in
    let found = add_artifacts ont art_desc eid (event_relation r) values s in
    let step =
      Grows-if (λ (t : CountLoop). t.scg) (is_restriction r.types) s found
        (add_artifacts-Grows ont art_desc eid (event_relation r) values s h) in
    Grows-trans step (
      add_restrictions-Grows ont art_desc eid scs (if is_restriction r.types then found else s)
        (Grows-has_node step eid h))

add_events-Grows :
    (ont : Ontology) (art_desc eids : List String) (s : CountLoop)
    → All (λ eid. has_node s.scg eid ≡ true) eids
    → Grows s.scg (add_events ont art_desc eids s).scg
unfolding add_events
add_events-Grows ont art_desc [] s h = Grows-refl s.scg
add_events-Grows ont art_desc (eid ∷ eids) s h =
    let scs = refs_of "rdfs:subClassOf" (by_id ont eid) in
    let next = add_restrictions ont art_desc eid scs s in
    let step = add_restrictions-Grows ont art_desc eid scs s h.0 in
    Grows-trans step (
      add_events-Grows ont art_desc eids next (
        All-map (λ x. has_node s.scg x ≡ true) (λ x. has_node next.scg x ≡ true)
          (λ x. Grows-has_node step x) eids h.1))

event_ids_known :
    (nodes : Dict String NodeAttrs)
    → All (λ eid. contains (keys nodes) eid ≡ true) (event_ids nodes)
unfolding event_ids contains
event_ids_known [] = tt
event_ids_known ((nid, a) ∷ nodes) =
    let rest =
      All-map (λ x. contains (keys nodes) x ≡ true)
        (λ x. (x == nid || contains (keys nodes) x) ≡ true) (λ x h. ground arith) (event_ids nodes)
        (event_ids_known nodes) in
    elim (Bool-cases (a.ntype == "d3fend_event")) [
      | inl event ↦ rw (event) (ground (arith, eq_iff nid nid), rest)
      | inr other ↦ rw (other) rest
    ]

pub hop2b_event_artifact-Grows :
    (ont : Ontology) (b : Build) → Grows b.scg (hop2b_event_artifact ont b).scg
unfolding hop2b_event_artifact record_figure has_node
hop2b_event_artifact-Grows ont b =
    add_events-Grows ont (subclass_descendants ont.graph artifact_root) (event_ids b.scg.nodes)
      (record { scg = b.scg; n = 0 }) (event_ids_known b.scg.nodes)
