-- ===== src/ConceptGraph/Built.antt =====
-- The graph that a whole run builds.
use sdw_lab_benchmarks.Prelude.{Bool, Bool-cases, inl, inr}
use sdw_lab_benchmarks.ConceptGraph.Ontology.{ontology}
use sdw_lab_benchmarks.ConceptGraph.Scaffold.{Build}
use sdw_lab_benchmarks.ConceptGraph.Grows.{IsConceptGraph, Grows, Grows-trans}
use sdw_lab_benchmarks.ConceptGraph.FieldHop.{hop1_fields}
use sdw_lab_benchmarks.ConceptGraph.EventHop.{hop2_ocsf_d3fend, hop2b_event_artifact}
use sdw_lab_benchmarks.ConceptGraph.WallHop.{hop34_artifacts, hop4_inferred_matrix}
use sdw_lab_benchmarks.ConceptGraph.MitigationHop.{hop4prime_curated}
use sdw_lab_benchmarks.ConceptGraph.SkosHop.{hop5_skos}
use sdw_lab_benchmarks.ConceptGraph.Main.{Sources, run_hops, empty_build}
use sdw_lab_benchmarks.ConceptGraph.SpineGrows.{
  hop1_fields-Grows, hop2_ocsf_d3fend-Grows, hop2b_event_artifact-Grows,
}
use sdw_lab_benchmarks.ConceptGraph.WallGrows.{
  hop34_artifacts-Grows, hop4_inferred_matrix-Grows, hop4prime_curated-Grows,
}
use sdw_lab_benchmarks.ConceptGraph.ControlGrows.{hop5_skos-Grows, hop5prime_scf-Grows}

-- From any graph the hops only add to it: its nodes keep their attributes, since the first write of
-- a node wins, its edges keep their places, and it stays sound if it was.
pub run_hops-Grows :
    (src : Sources) (with_scf : Bool) (b : Build) → Grows b.scg (run_hops src with_scf b).scg
unfolding run_hops
run_hops-Grows src with_scf b =
    let ont = ontology src.graph in
    let b1 = hop1_fields src.cim_bridge b in
    let b2 = hop2_ocsf_d3fend ont b1 in
    let b3 = hop2b_event_artifact ont b2 in
    let b4 = hop34_artifacts ont src.edges b3 in
    let wall = hop4_inferred_matrix ont src.matrix_long b4 in
    let b6 = hop4prime_curated ont wall.0 in
    let b7 = hop5_skos ont b6 in
    let g2 = Grows-trans (hop1_fields-Grows src.cim_bridge b) (hop2_ocsf_d3fend-Grows ont b1) in
    let g3 = Grows-trans g2 (hop2b_event_artifact-Grows ont b2) in
    let g4 = Grows-trans g3 (hop34_artifacts-Grows ont src.edges b3) in
    let g5 = Grows-trans g4 (hop4_inferred_matrix-Grows ont src.matrix_long b4) in
    let g6 = Grows-trans g5 (hop4prime_curated-Grows ont wall.0) in
    let g7 = Grows-trans g6 (hop5_skos-Grows ont b6) in
    let scf = Grows-trans g7 (hop5prime_scf-Grows src.scf_sankey wall.1 b7) in
    elim (Bool-cases with_scf) [ inl asked ↦ rw (asked) scf | inr plain ↦ rw (plain) g7 ]

-- In the graph of a run, no node is of an event type, and every edge joins two of its nodes, has
-- tier A, and a quality that the server of the graph has a trust for.
pub run_hops-IsConceptGraph :
    (src : Sources) (with_scf : Bool) → IsConceptGraph (run_hops src with_scf empty_build).scg
run_hops-IsConceptGraph src with_scf = (run_hops-Grows src with_scf empty_build).sound (tt, tt)
