-- ===== src/ConceptGraph/WallGrows.antt =====
-- The hops over the wall's tables only add to the graph.
use sdw_lab_benchmarks.Prelude.{
  suc, ◌≡◌, ◌==◌, String, List, [], ◌∷◌, string_eq, if◌then◌else◌, Bool-cases, inl, inr, true,
}
use sdw_lab_benchmarks.Prelude.Edits.{is_blank}
use sdw_lab_benchmarks.ConceptGraph.Ontology.{Ontology, Thing, label, by_id, refs_of, classify_d3f}
use sdw_lab_benchmarks.ConceptGraph.Scaffold.{Scg, has_node, node, edge, record_figure, Build}
use sdw_lab_benchmarks.ConceptGraph.Grows.{
  is_concept, is_rated, Grows, Grows-has_node, Grows-refl, Grows-trans, Grows-if, has_node_self,
  growing,
}
use sdw_lab_benchmarks.ConceptGraph.EventHop.{CountLoop}
use sdw_lab_benchmarks.ConceptGraph.WallHop.{
  resolve_defense, resolve_artifact, attack, attack_id, EdgeRow, add_observes, add_produces,
  add_tactic, add_edge_row, add_edge_rows, hop34_artifacts, MatrixRow, MatrixLoop, add_may_counter,
  add_matrix_row, add_matrix_rows, matrix_loop, hop4_inferred_matrix,
}
use sdw_lab_benchmarks.ConceptGraph.MitigationHop.{
  skos_preds, mitigation_file, mitigation_note, is_technique, add_mitigated, add_predicates,
  add_mitigations, hop4prime_curated,
}

add_observes-Grows : (ont : Ontology) (r : EdgeRow) (scg : Scg) → Grows scg (add_observes ont r scg)
unfolding add_observes resolve_defense resolve_artifact is_concept is_rated
add_observes-Grows ont r scg = search growing depth 12

add_produces-Grows : (ont : Ontology) (r : EdgeRow) (scg : Scg) → Grows scg (add_produces ont r scg)
unfolding add_produces attack resolve_artifact is_concept is_rated
add_produces-Grows ont r scg = search growing depth 12

-- The attack of the row is a node afterwards.
has_attack :
    (ont : Ontology) (r : EdgeRow) (scg : Scg)
    → has_node (add_produces ont r scg) (attack_id r.off_tech_id) ≡ true
unfolding add_produces attack resolve_artifact
has_attack ont r scg = search growing depth 12

add_tactic-Grows :
    (r : EdgeRow) (scg : Scg)
    → has_node scg (attack_id r.off_tech_id) ≡ true
    → Grows scg (add_tactic r scg)
unfolding add_tactic is_concept is_rated
add_tactic-Grows r scg h = search growing depth 12

add_edge_row-Grows : (ont : Ontology) (r : EdgeRow) (scg : Scg) → Grows scg (add_edge_row ont r scg)
unfolding add_edge_row
add_edge_row-Grows ont r scg =
    let observed = add_observes ont r scg in
    let joined = Grows-trans (add_observes-Grows ont r scg) (add_produces-Grows ont r observed) in
    elim (Bool-cases (is_blank r.off_tactic)) [
      | inl blank ↦ rw (blank) joined
      | inr named ↦
          rw (named) (Grows-trans joined (add_tactic-Grows r _ (has_attack ont r observed)))
    ]

add_edge_rows-Grows :
    (ont : Ontology) (rows : List EdgeRow) (scg : Scg) → Grows scg (add_edge_rows ont rows scg)
unfolding add_edge_rows
add_edge_rows-Grows ont [] scg = Grows-refl scg
add_edge_rows-Grows ont (r ∷ rows) scg =
    Grows-trans (add_edge_row-Grows ont r scg)
      (add_edge_rows-Grows ont rows (add_edge_row ont r scg))

pub hop34_artifacts-Grows :
    (ont : Ontology) (rows : List EdgeRow) (b : Build)
    → Grows b.scg (hop34_artifacts ont rows b).scg
unfolding hop34_artifacts record_figure
hop34_artifacts-Grows ont rows b = add_edge_rows-Grows ont rows b.scg

add_may_counter-Grows :
    (ont : Ontology) (r : MatrixRow) (scg : Scg) → Grows scg (add_may_counter ont r scg)
unfolding add_may_counter resolve_defense attack is_concept is_rated
add_may_counter-Grows ont r scg = search growing depth 12

add_matrix_rows-Grows :
    (ont : Ontology) (rows : List MatrixRow) (s : MatrixLoop)
    → Grows s.scg (add_matrix_rows ont rows s).scg
unfolding add_matrix_rows add_matrix_row
add_matrix_rows-Grows ont [] s = Grows-refl s.scg
add_matrix_rows-Grows ont (r ∷ rows) s =
    Grows-trans (add_may_counter-Grows ont r s.scg)
      (add_matrix_rows-Grows ont rows (add_matrix_row ont r s))

pub hop4_inferred_matrix-Grows :
    (ont : Ontology) (rows : List MatrixRow) (b : Build)
    → Grows b.scg (hop4_inferred_matrix ont rows b).0.scg
unfolding hop4_inferred_matrix matrix_loop record_figure
hop4_inferred_matrix-Grows ont rows b = add_matrix_rows-Grows ont rows _

add_mitigated-Grows :
    (ont : Ontology) (mid : String) (tgts : List String) (s : CountLoop)
    → has_node s.scg mid ≡ true
    → Grows s.scg (add_mitigated ont mid tgts s).scg
unfolding add_mitigated is_concept is_rated
add_mitigated-Grows ont mid [] s h = Grows-refl s.scg
add_mitigated-Grows ont mid (tgt ∷ tgts) s h =
    let scg' =
      edge tgt mid "curated_mitigation" "A" "curated" mitigation_file mitigation_note
        (node tgt "defense" (label (by_id ont tgt)) [] s.scg) in
    let next : CountLoop = record { scg = scg'; n = suc s.n } in
    let grown : Grows s.scg scg' = search growing depth 12 in
    let step = Grows-if (λ (t : CountLoop). t.scg) (is_technique ont tgt) s next grown in
    Grows-trans step (
      add_mitigated-Grows ont mid tgts (if is_technique ont tgt then next else s)
        (Grows-has_node step mid h))

add_predicates-Grows :
    (ont : Ontology) (n : Thing) (preds : List String) (s : CountLoop)
    → has_node s.scg n.id ≡ true
    → Grows s.scg (add_predicates ont n preds s).scg
unfolding add_predicates
add_predicates-Grows ont n [] s h = Grows-refl s.scg
add_predicates-Grows ont n (pred ∷ preds) s h =
    let step = add_mitigated-Grows ont n.id (refs_of pred n) s h in
    Grows-trans step (
      add_predicates-Grows ont n preds (add_mitigated ont n.id (refs_of pred n) s)
        (Grows-has_node step n.id h))

add_mitigations-Grows :
    (ont : Ontology) (ns : List Thing) (s : CountLoop) → Grows s.scg (add_mitigations ont ns s).scg
unfolding add_mitigations is_concept
add_mitigations-Grows ont [] s = Grows-refl s.scg
add_mitigations-Grows ont (n ∷ ns) s =
    let scg' = node n.id "attack_mitigation" (label n) [] s.scg in
    let start : CountLoop = record s { scg = scg' } in
    let found = add_predicates ont n skos_preds start in
    let first : Grows s.scg scg' = search growing in
    let here = has_node_self n.id "attack_mitigation" (label n) [] s.scg in
    let grown = Grows-trans first (add_predicates-Grows ont n skos_preds start here) in
    let test = classify_d3f n == "attack_mitigation" in
    Grows-trans (Grows-if (λ (t : CountLoop). t.scg) test s found grown)
      (add_mitigations-Grows ont ns (if test then found else s))

pub hop4prime_curated-Grows :
    (ont : Ontology) (b : Build) → Grows b.scg (hop4prime_curated ont b).scg
unfolding hop4prime_curated record_figure
hop4prime_curated-Grows ont b = add_mitigations-Grows ont ont.graph _
