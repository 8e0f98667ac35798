-- ===== src/ConceptGraph/Tests.antt =====
-- A small ontology, two tables and an SCF file.
use sdw_lab_benchmarks.Prelude.{
  ◌≡◌, ◌≤◌, ◌↔◌, ◌+◌, ◌&&◌, refl, true, false, none, some, String, List, [], ◌∷◌, length, contains,
  string_eq,
}
use sdw_lab_benchmarks.Prelude.Text.{is_in}
use sdw_lab_benchmarks.Prelude.Results.{raise, ok}
use sdw_lab_benchmarks.ConceptGraph.Ontology.{
  Thing, Value, literal, dict, single, several, one_type, type_list, ontology,
}
use sdw_lab_benchmarks.ConceptGraph.Descendants.{subclass_descendants}
use sdw_lab_benchmarks.ConceptGraph.Scaffold.{new_scg}
use sdw_lab_benchmarks.ConceptGraph.Grows.{Grows, IsConceptGraph}
use sdw_lab_benchmarks.ConceptGraph.FieldHop.{Bridge}
use sdw_lab_benchmarks.ConceptGraph.WallHop.{EdgeRow, MatrixRow, matrix_loop}
use sdw_lab_benchmarks.ConceptGraph.SkosHop.{skos_loop}
use sdw_lab_benchmarks.ConceptGraph.ScfHop.{ScfFile, count_reached, count_gaps, wall_attacks}
use sdw_lab_benchmarks.ConceptGraph.Reconcile.{key_error}
use sdw_lab_benchmarks.ConceptGraph.Main.{Sources, Exit, run_hops, empty_build, main}
use sdw_lab_benchmarks.ConceptGraph.Reached.{IsBelow, subclass_descendants-IsBelow}
use sdw_lab_benchmarks.ConceptGraph.Built.{run_hops-Grows, run_hops-IsConceptGraph}
use sdw_lab_benchmarks.ConceptGraph.Ends.{main_raises_iff, main_returns}
use sdw_lab_benchmarks.ConceptGraph.SkosCounts.{skos_controls_split}
use sdw_lab_benchmarks.ConceptGraph.Reach.{reaching_le_defenses, gap_free_reaches}

abbrev link : String → Value
link id = single (dict (some id) none)

abbrev things : List Thing
things =
    record {
      id = "d3f:FileEvent";
      types = type_list ("owl:Class" ∷ []);
      props =
          ("rdfs:label", single (literal "File Event"))
          ∷ ("rdfs:seeAlso", link "https://schema.ocsf.io/classes/file_activity")
          ∷ ("rdfs:subClassOf", link "_:r1")
          ∷ [];
    }
    ∷ record {
      id = "_:r1";
      types = one_type "owl:Restriction";
      props =
          ("owl:onProperty", link "d3f:has-participant")
          ∷ ("owl:someValuesFrom", link "d3f:File")
          ∷ [];
    }
    ∷ record {
      id = "d3f:File";
      types = type_list ("owl:Class" ∷ []);
      props =
          ("rdfs:label", single (literal "File"))
          ∷ ("rdfs:subClassOf", link "d3f:DigitalArtifact")
          ∷ [];
    }
    ∷ record {
      id = "d3f:FileAnalysis";
      types = type_list ("owl:Class" ∷ []);
      props =
          ("rdfs:label", single (literal "File Analysis"))
          ∷ ("d3f:d3fend-id", single (literal "D3-FA"))
          ∷ (
            "d3f:related",
            several (
                dict (some "d3f:NIST_SP_800-53_R5_SI-3") none
                ∷ dict (some "d3f:CCI-001") none
                ∷ []),
          )
          ∷ [];
    }
    ∷ []

abbrev rows : List MatrixRow
rows = record { d3fend_id = "D3-FA"; off_tech_id = "T1005.001"; off_tech = "Local Data" } ∷ []

abbrev edge_rows : List EdgeRow
edge_rows =
    record {
      def_tech = "File Analysis";
      def_artifact = "File";
      def_artifact_rel = "analyzes";
      off_tech_id = "T1005";
      off_tech = "Local Data";
      off_artifact = "File";
      off_artifact_rel = "reads";
      off_tactic = "collection";
    }
    ∷ []

abbrev bridge : Bridge
bridge = record {
  target_class = some "network_activity (4001)";
  bridge =
      ("src_ip", some (record { ocsf = some "src_endpoint.ip"; basis = "name"; note = "" }))
      ∷ ("vendor", some (record { ocsf = none; basis = "none"; note = "" }))
      ∷ [];
}

abbrev scf_sankey : ScfFile
scf_sankey = record {
  frameworks = record { fid = "1"; name = some "CSF"; curated = none } ∷ [];
  domains = "END" ∷ [];
  controls =
      record {
        scf = some "END-04";
        cid = "7";
        did = some 0;
        name = "Malware";
        cons = none;
        consw = none;
        mapping = ("1", "PR" ∷ []) ∷ ("36", "T1005" ∷ []) ∷ [];
      }
      ∷ [];
}

abbrev sources : Sources
sources = record {
  graph = things;
  edges = edge_rows;
  matrix_long = rows;
  cim_bridge = some bridge;
  scf_sankey = none;
}

abbrev with_file : Sources
with_file = record sources { scf_sankey = some scf_sankey }

subclass_descendants-IsBelow_example :
    (contains (subclass_descendants things "d3f:DigitalArtifact") "d3f:File" ≡ true)
    ↔ IsBelow things "d3f:DigitalArtifact" "d3f:File"
subclass_descendants-IsBelow_example =
    subclass_descendants-IsBelow things "d3f:DigitalArtifact" "d3f:File"

run_hops-Grows_example : Grows empty_build.scg (run_hops with_file true empty_build).scg
run_hops-Grows_example = run_hops-Grows with_file true empty_build

run_hops-IsConceptGraph_example : IsConceptGraph (run_hops with_file true empty_build).scg
run_hops-IsConceptGraph_example = run_hops-IsConceptGraph with_file true

main_raises_iff_example :
    (main sources true false ≡ raise (key_error "scf_controls_attack"))
    ↔ ((true ≡ true) × (sources.scf_sankey ≡ none))
main_raises_iff_example = main_raises_iff sources true false

main_returns_example : (end : Exit) × (main with_file true false ≡ ok end)
main_returns_example = main_returns with_file true false refl

skos_controls_split_example :
    (length (skos_loop (ontology things) new_scg).controls
      ≡ length (skos_loop (ontology things) new_scg).c8053
        + length (skos_loop (ontology things) new_scg).ccci)
    × ((x : String)
        → (contains (skos_loop (ontology things) new_scg).c8053 x
            && contains (skos_loop (ontology things) new_scg).ccci x)
          ≡ false)
skos_controls_split_example = skos_controls_split (ontology things) new_scg

reaching_le_defenses_example :
    count_reached ("T1005" ∷ []) (matrix_loop (ontology things) rows new_scg).def2attacks
    ≤ length (matrix_loop (ontology things) rows new_scg).defenses
reaching_le_defenses_example = reaching_le_defenses (ontology things) rows new_scg ("T1005" ∷ [])

gap_free_reaches_example :
    count_reached ("T1005" ∷ []) (matrix_loop (ontology things) rows new_scg).def2attacks
    ≡ length (matrix_loop (ontology things) rows new_scg).defenses
unfolding count_gaps wall_attacks matrix_loop
gap_free_reaches_example = gap_free_reaches (ontology things) rows new_scg ("T1005" ∷ []) refl

-- The run writes edges of every hop, and the controls of both kinds.
edges_written : length (run_hops with_file true empty_build).scg.edges ≡ 14
unfolding run_hops
edges_written = refl

two_controls : length (skos_loop (ontology things) new_scg).controls ≡ 2
unfolding skos_loop ontology is_in
two_controls = refl
