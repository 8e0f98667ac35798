-- ===== src/ConceptGraph/MitigationHop.antt =====
-- Hop 4' from the ontology, security-context-graph/scg.py (`hop4prime_curated`): the curated relations
-- of a defense to an ATT&CK mitigation.
use sdw_lab_benchmarks.Prelude.{
  suc, String, Bool, ◌&&◌, Option, none, some, List, [], ◌∷◌, ◌==◌, string_eq, if◌then◌else◌,
}
use sdw_lab_benchmarks.ConceptGraph.Ontology.{
  Ontology, Thing, label, refs_of, prop_of, refs, by_id, is_control, classify_d3f,
}
use sdw_lab_benchmarks.ConceptGraph.Scaffold.{node, edge, number, Build, record_figure}
use sdw_lab_benchmarks.ConceptGraph.EventHop.{CountLoop}

abbrev pub skos_preds : List String
skos_preds = "d3f:broader" ∷ "d3f:narrower" ∷ "d3f:exactly" ∷ "d3f:related" ∷ []

abbrev pub mitigation_file : String
mitigation_file = "d3fend-wall/cache/d3fend_ontology.json (ATTACKEnterpriseMitigation d3f:related)"

abbrev pub mitigation_note : String
mitigation_note = "D3FEND's hand-authored ATT&CK-mitigation relation"

abbrev pub is_none : Option String → Bool
is_none none = Bool.true
is_none (some s) = Bool.false

-- A target that is a defensive technique and no control.
unfoldable pub is_technique : Ontology → String → Bool
unfolding is_control classify_d3f by_id
is_technique ont tgt =
    is_none (is_control tgt) && classify_d3f (by_id ont tgt) == "defensive_technique"

-- The loop over the targets of a predicate.
unfoldable pub add_mitigated : Ontology → String → List String → CountLoop → CountLoop
unfolding is_technique node edge label by_id
add_mitigated ont mid [] s = s
add_mitigated ont mid (tgt ∷ tgts) s =
    let scg =
      edge tgt mid "curated_mitigation" "A" "curated" mitigation_file mitigation_note
        (node tgt "defense" (label (by_id ont tgt)) [] s.scg) in
    add_mitigated ont mid tgts
      (if is_technique ont tgt then record { scg = scg; n = suc s.n } else s)

unfoldable pub add_predicates : Ontology → Thing → List String → CountLoop → CountLoop
unfolding add_mitigated prop_of refs
add_predicates ont n [] s = s
add_predicates ont n (pred ∷ preds) s =
    add_predicates ont n preds (add_mitigated ont n.id (refs_of pred n) s)

unfoldable pub add_mitigations : Ontology → List Thing → CountLoop → CountLoop
unfolding add_predicates classify_d3f node label
add_mitigations ont [] s = s
add_mitigations ont (n ∷ ns) s =
    let found =
      add_predicates ont n skos_preds
        (record s { scg = node n.id "attack_mitigation" (label n) [] s.scg }) in
    add_mitigations ont ns (if classify_d3f n == "attack_mitigation" then found else s)

unfoldable pub hop4prime_curated : Ontology → Build → Build
unfolding add_mitigations record_figure
hop4prime_curated ont b =
    let s = add_mitigations ont ont.graph (record { scg = b.scg; n = 0 }) in
    record_figure "hop4prime_curated_edges" (number s.n) (record b { scg = s.scg })
