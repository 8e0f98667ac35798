-- ===== src/ConceptGraph/WallHop.antt =====
-- Hops 3 to 4', security-context-graph/scg.py (`_resolve_defense`, `_resolve_artifact`, `_attack`,
-- `hop34_artifacts`, `hop4_inferred_matrix`, `hop4prime_curated`), from the parsed rows of the wall's
-- tables and from the ontology. A missing `d3fend_id` or `label` is empty, as the code only tests it.
use sdw_lab_benchmarks.Prelude.{
  ℕ, suc, String, Option, none, some, List, [], ◌∷◌, Dict, length, lookup, insert, add, string_eq,
  if◌then◌else◌,
}
use sdw_lab_benchmarks.Prelude.Text.{split}
use sdw_lab_benchmarks.Prelude.Edits.{is_blank, or_else, ◌⧺◌, strip, to_lower, first_of, replace}
use sdw_lab_benchmarks.ConceptGraph.Ontology.{Ontology}
use sdw_lab_benchmarks.ConceptGraph.Scaffold.{Scg, node, edge, number, Build, record_figure}

-- `nid` of `_resolve_defense`
unfoldable pub defense_id : Ontology → String → String → String
unfolding lookup to_lower strip
defense_id ont d3fend_id name =
    let unknown = "d3f:defense/" ⧺ or_else d3fend_id (or_else name "unknown") in
    let by_label : Option String =
      if is_blank name then none else lookup (to_lower (strip name)) ont.label2id in
    let by_label_id : String = elim by_label [ none ↦ unknown | some nid ↦ nid ] in
    if is_blank d3fend_id
    then by_label_id
    else (elim (lookup d3fend_id ont.d3fendid2id) [ none ↦ by_label_id | some nid ↦ nid ])

-- `_resolve_defense`; the id that it gives back is `defense_id`.
unfoldable pub resolve_defense : Ontology → String → String → Scg → Scg
unfolding node defense_id
resolve_defense ont d3fend_id name scg =
    node (defense_id ont d3fend_id name) "defense" name (("d3fend_id", some d3fend_id) ∷ []) scg

unfoldable pub artifact_id : Ontology → String → String
unfolding lookup to_lower strip replace
artifact_id ont name = elim (lookup (to_lower (strip name)) ont.label2id) [
  | none ↦ "d3f:artifact/" ⧺ replace " " "" name
  | some nid ↦ nid
]

-- `_resolve_artifact`
unfoldable pub resolve_artifact : Ontology → String → Scg → Scg
unfolding node artifact_id
resolve_artifact ont name scg = node (artifact_id ont name) "artifact" name [] scg

abbrev pub attack_id : String → String
attack_id tid = "attack:" ⧺ tid

-- `t.split(".")[0]`
unfoldable pub base : String → String
unfolding split
base tid = first_of (split "." tid)

-- `_attack`
unfoldable pub attack : String → String → Scg → Scg
unfolding node base
attack tid name scg =
    node (attack_id tid) "attack" (or_else name tid) (("base", some (base tid)) ∷ []) scg

-- A row of edges.csv.
pub record EdgeRow : Type 0 where
  pub def_tech : String
  pub def_artifact : String
  pub def_artifact_rel : String
  pub off_tech_id : String
  pub off_tech : String
  pub off_artifact : String
  pub off_artifact_rel : String
  pub off_tactic : String

abbrev pub edges_file : String
edges_file = "d3fend-wall/data/edges.csv"

abbrev pub observes_note : String
observes_note =
    "D3FEND ontology: defensive technique hand-tagged to the artifact it observes/touches"

abbrev pub produces_note : String
produces_note =
    "inferred from a SHARED artifact; intent-blind (D3FEND #520), a POSSIBILITY of coverage not a guarantee"

-- The edge from a defense to the artifact that it observes.
unfoldable pub add_observes : Ontology → EdgeRow → Scg → Scg
unfolding edge resolve_artifact resolve_defense
add_observes ont r scg =
    edge (defense_id ont "" r.def_tech) (artifact_id ont r.def_artifact)
      ("observes:" ⧺ r.def_artifact_rel) "A" "ontology_curated" edges_file observes_note
      (resolve_artifact ont r.def_artifact (resolve_defense ont "" r.def_tech scg))

-- The edge from an attack to the artifact that it produces.
unfoldable pub add_produces : Ontology → EdgeRow → Scg → Scg
unfolding edge resolve_artifact attack
add_produces ont r scg =
    edge (attack_id r.off_tech_id) (artifact_id ont r.off_artifact)
      ("produces:" ⧺ r.off_artifact_rel) "A" "artifact_cooccurrence" edges_file produces_note
      (resolve_artifact ont r.off_artifact (attack r.off_tech_id r.off_tech scg))

abbrev pub tactic_id : String → String
tactic_id tactic = "attack:tactic/" ⧺ tactic

unfoldable pub add_tactic : EdgeRow → Scg → Scg
unfolding edge node
add_tactic r scg =
    edge (attack_id r.off_tech_id) (tactic_id r.off_tactic) "in_tactic" "A" "curated" edges_file ""
      (node (tactic_id r.off_tactic) "attack_tactic" r.off_tactic [] scg)

-- The body of the loop over the rows.
unfoldable pub add_edge_row : Ontology → EdgeRow → Scg → Scg
unfolding add_observes add_produces add_tactic
add_edge_row ont r scg =
    let joined = add_produces ont r (add_observes ont r scg) in
    if is_blank r.off_tactic then joined else add_tactic r joined

unfoldable pub add_edge_rows : Ontology → List EdgeRow → Scg → Scg
unfolding add_edge_row
add_edge_rows ont [] scg = scg
add_edge_rows ont (r ∷ rows) scg = add_edge_rows ont rows (add_edge_row ont r scg)

-- Both counters of the loop go up by one for each row.
unfoldable pub hop34_artifacts : Ontology → List EdgeRow → Build → Build
unfolding add_edge_rows record_figure
hop34_artifacts ont rows b = record_figure "hop4_produces_edges" (number (length rows)) (
    record_figure "hop3_observes_edges" (number (length rows))
      (record b { scg = add_edge_rows ont rows b.scg }))

-- A row of matrix_long.csv; a missing `off_tech` is empty.
pub record MatrixRow : Type 0 where
  pub d3fend_id : String
  pub off_tech_id : String
  pub off_tech : String

abbrev pub matrix_file : String
matrix_file = "d3fend-wall/data/matrix_long.csv"

abbrev pub matrix_note : String
matrix_note =
    "reproduces D3FEND's own artifact-overlap inference (subclass-walked); coverage != detection: an inferred edge means a defense COULD observe the artifact, not that it counters the attack in a deployment"

abbrev pub Attacks : Type 0
Attacks = Dict String (List String)

-- `def2attacks[d]` of a `defaultdict(set)`
unfoldable pub attacks_of : String → Attacks → List String
unfolding lookup
attacks_of d def2attacks = elim (lookup d def2attacks) [ none ↦ [] | some atks ↦ atks ]

pub record MatrixLoop : Type 0 where
  pub scg : Scg
  pub n : ℕ
  pub defenses : List String
  pub def2attacks : Attacks

unfoldable pub add_may_counter : Ontology → MatrixRow → Scg → Scg
unfolding edge attack resolve_defense
add_may_counter ont r scg =
    edge (defense_id ont r.d3fend_id "") (attack_id r.off_tech_id) "may_counter" "A"
      "artifact_cooccurrence" matrix_file matrix_note
      (attack r.off_tech_id r.off_tech (resolve_defense ont r.d3fend_id "" scg))

-- The body of the loop over the rows.
unfoldable pub add_matrix_row : Ontology → MatrixRow → MatrixLoop → MatrixLoop
unfolding add_may_counter attacks_of add insert
add_matrix_row ont r s = record {
  scg = add_may_counter ont r s.scg;
  n = suc s.n;
  defenses = add r.d3fend_id s.defenses;
  def2attacks =
      insert r.d3fend_id (add r.off_tech_id (attacks_of r.d3fend_id s.def2attacks)) s.def2attacks;
}

unfoldable pub add_matrix_rows : Ontology → List MatrixRow → MatrixLoop → MatrixLoop
unfolding add_matrix_row
add_matrix_rows ont [] s = s
add_matrix_rows ont (r ∷ rows) s = add_matrix_rows ont rows (add_matrix_row ont r s)

-- The loop from the start.
unfoldable pub matrix_loop : Ontology → List MatrixRow → Scg → MatrixLoop
unfolding add_matrix_rows
matrix_loop ont rows scg =
    add_matrix_rows ont rows (record { scg = scg; n = 0; defenses = []; def2attacks = [] })

-- `hop4_inferred_matrix` with the `def2attacks` that it gives back
unfoldable pub hop4_inferred_matrix : Ontology → List MatrixRow → Build → Build × Attacks
unfolding matrix_loop record_figure
hop4_inferred_matrix ont rows b =
    let s = matrix_loop ont rows b.scg in
    let counted = record_figure "hop4_inferred_edges" (number s.n) (record b { scg = s.scg }) in
    (record_figure "wall_defenses" (number (length s.defenses)) counted, s.def2attacks)
