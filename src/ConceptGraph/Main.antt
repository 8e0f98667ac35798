-- ===== src/ConceptGraph/Main.antt =====
-- The whole build, security-context-graph/scg.py (`main`), from the parsed sources to the exit.
use sdw_lab_benchmarks.Prelude.{Bool, ◌&&◌, not, Option, List, [], is_empty, if◌then◌else◌}
use sdw_lab_benchmarks.Prelude.Results.{Result, ok, ◌>>=◌}
use sdw_lab_benchmarks.ConceptGraph.Ontology.{Thing, ontology}
use sdw_lab_benchmarks.ConceptGraph.Scaffold.{Build, new_scg}
use sdw_lab_benchmarks.ConceptGraph.FieldHop.{Bridge, hop1_fields}
use sdw_lab_benchmarks.ConceptGraph.EventHop.{hop2_ocsf_d3fend, hop2b_event_artifact}
use sdw_lab_benchmarks.ConceptGraph.WallHop.{
  EdgeRow, MatrixRow, hop34_artifacts, hop4_inferred_matrix,
}
use sdw_lab_benchmarks.ConceptGraph.MitigationHop.{hop4prime_curated}
use sdw_lab_benchmarks.ConceptGraph.SkosHop.{hop5_skos}
use sdw_lab_benchmarks.ConceptGraph.ScfHop.{ScfFile, hop5prime_scf}
use sdw_lab_benchmarks.ConceptGraph.Reconcile.{
  Check, Error, reconcile, hard_failures, soft_failures,
}

-- The sources of a run: `cim_bridge` and `scf_sankey` may not exist.
pub record Sources : Type 0 where
  pub graph : List Thing
  pub edges : List EdgeRow
  pub matrix_long : List MatrixRow
  pub cim_bridge : Option Bridge
  pub scf_sankey : Option ScfFile

-- The hops of the public spine after hop 1, then the SCF layer if it is asked for.
unfoldable pub run_hops : Sources → Bool → Build → Build
unfolding hop1_fields hop2_ocsf_d3fend hop2b_event_artifact hop34_artifacts hop4_inferred_matrix
    hop4prime_curated hop5_skos hop5prime_scf ontology
run_hops src with_scf b =
    let ont = ontology src.graph in
    let wall = hop4_inferred_matrix ont src.matrix_long (
      hop34_artifacts ont src.edges
        (hop2b_event_artifact ont (hop2_ocsf_d3fend ont (hop1_fields src.cim_bridge b)))) in
    let spine = hop5_skos ont (hop4prime_curated ont wall.0) in
    if with_scf then hop5prime_scf src.scf_sankey wall.1 spine else spine

abbrev pub empty_build : Build
empty_build = record { scg = new_scg; recon = [] }

-- How a run ends.
pub data Exit : Type 0 where
  hard_failure : List Check → Exit
  soft_failure : List Check → Exit
  all_pass : Exit

unfoldable pub exit_of : Bool → List Check → Exit
exit_of strict checks =
    let hard = hard_failures checks in
    let soft = soft_failures checks in
    if not (is_empty hard)
    then hard_failure hard
    else if not (is_empty soft) && strict
    then soft_failure soft
    else all_pass

-- `main`, with the required sources at hand
unfoldable pub main : Sources → Bool → Bool → Result Error Exit
unfolding run_hops reconcile exit_of
main src with_scf strict = do
  checks ← reconcile with_scf (run_hops src with_scf empty_build)
  ok (exit_of strict checks)
