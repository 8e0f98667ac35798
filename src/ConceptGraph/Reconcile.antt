-- ===== src/ConceptGraph/Reconcile.antt =====
-- The check of the figures against the published ones, security-context-graph/scg.py (`EXPECT`,
-- `reconcile`). A figure that is read by `recon[...]` and missing raises a KeyError.
use sdw_lab_benchmarks.Prelude.{
  ℕ, String, Bool, true, false, not, ◌&&◌, Option, none, some, List, [], ◌∷◌, ◌++◌, Dict, keys,
  length, keep, lookup, bump, contains, sort_by, ltb, string_eq, if◌then◌else◌,
}
use sdw_lab_benchmarks.Prelude.TextOrder.{text_le}
use sdw_lab_benchmarks.Prelude.Results.{Result, ok, ◌>>=◌, from_option}
use sdw_lab_benchmarks.ConceptGraph.Scaffold.{
  NodeAttrs, EdgeAttrs, Scg, event_ntypes, Figure, number, flag, names, counts, same_figure, Recon,
  Build, record_figure,
}

-- `EXPECT`
abbrev pub expect : Dict String ℕ
expect =
    ("skos_edges", 606)
    ∷ ("skos_controls", 402)
    ∷ ("skos_controls_800-53", 111)
    ∷ ("skos_controls_cci", 291)
    ∷ ("skos_def_techniques", 79)
    ∷ ("ocsf_seealso_pairs", 69)
    ∷ ("ocsf_event_class_links", 28)
    ∷ ("ocsf_distinct_classes", 27)
    ∷ ("scf_controls_attack", 108)
    ∷ ("scf_attack_ids", 511)
    ∷ ("wall_defenses", 120)
    ∷ ("wall_defenses_reaching_scf", 118)
    ∷ ("scf_controls_reached", 104)
    ∷ ("wall_attack_gaps", 33)
    ∷ []

-- The figures that are checked hard, without and with the SCF layer.
abbrev pub spine_checks : List String
spine_checks =
    "skos_edges" ∷ "skos_controls" ∷ "skos_controls_800-53" ∷ "skos_controls_cci"
    ∷ "skos_def_techniques" ∷ "ocsf_seealso_pairs" ∷ "ocsf_event_class_links"
    ∷ "ocsf_distinct_classes" ∷ "wall_defenses" ∷ []

abbrev pub scf_checks : List String
scf_checks =
    "scf_controls_attack" ∷ "scf_attack_ids" ∷ "wall_defenses_reaching_scf" ∷ "scf_controls_reached"
    ∷ "wall_attack_gaps" ∷ []

-- An entry of `checks`; `got` is none for a None.
pub record Check : Type 0 where
  pub check : String
  pub got : Option Figure
  pub expected : Figure
  pub pass : Bool
  pub hard : Bool

abbrev pub passes : Option Figure → Figure → Bool
passes none expected = false
passes (some got) expected = same_figure got expected

-- `chk`
unfoldable pub chk : String → Option Figure → Figure → Bool → Check
chk name got expected hard = record {
  check = name;
  got = got;
  expected = expected;
  pass = passes got expected;
  hard = hard;
}

-- What a run ends with when it raises.
pub data Error : Type 0 where
  key_error : String → Error

-- `chk(name, recon[name], EXPECT[name])`
unfoldable pub figure_check : Recon → String → Result Error Check
unfolding chk lookup
figure_check recon name = do
  got ← from_option (key_error name) (lookup name recon)
  expected ← from_option (key_error name) (lookup name expect)
  ok (chk name (some got) (number expected) true)

unfoldable pub figure_checks : Recon → List String → Result Error (List Check)
unfolding figure_check
figure_checks recon [] = ok []
figure_checks recon (name ∷ rest) = do
  check ← figure_check recon name
  checks ← figure_checks recon rest
  ok (check ∷ checks)

-- `collections.Counter(...)` over the types of the nodes and over the qualities of the edges
unfoldable pub node_types : Dict String NodeAttrs → Dict String ℕ → Dict String ℕ
unfolding bump
node_types [] d = d
node_types ((nid, a) ∷ nodes) d = node_types nodes (bump a.ntype d)

unfoldable pub proxy_quality_dist : List EdgeAttrs → Dict String ℕ → Dict String ℕ
unfolding bump
proxy_quality_dist [] d = d
proxy_quality_dist (e ∷ edges) d = proxy_quality_dist edges (bump e.proxy_quality d)

-- `sorted(t for t in node_types if t in EVENT_NTYPES)`
unfoldable pub event_nodes : Scg → List String
unfolding sort_by contains node_types text_le
event_nodes scg = sort_by text_le (keep (contains event_ntypes) (keys (node_types scg.nodes [])))

-- The totals that are recorded before the checks.
unfoldable pub record_totals : Build → Build
unfolding record_figure node_types proxy_quality_dist
record_totals b = record_figure "proxy_quality_dist" (counts (proxy_quality_dist b.scg.edges [])) (
    record_figure "node_types" (counts (node_types b.scg.nodes [])) (
      record_figure "total_edges" (number (length b.scg.edges))
        (record_figure "total_nodes" (number (length b.scg.nodes)) b)))

-- The first two checks and the two soft ones.
unfoldable pub graph_checks : Scg → List Check
unfolding chk event_nodes
graph_checks scg =
    chk "node_count_under_10k" (some (flag (ltb (length scg.nodes) 10000))) (flag true) true
    ∷ chk "no_event_nodes" (some (names (event_nodes scg))) (names []) true
    ∷ []

unfoldable pub leaf_checks : Recon → List Check
unfolding chk lookup
leaf_checks recon =
    chk "digital_artifact_leaves~607" (lookup "digital_artifact_leaves" recon) (number 607) false
    ∷ chk "leaves_with_ocsf_seealso~14" (lookup "leaves_with_ocsf_seealso" recon) (number 14) false
    ∷ []

-- `reconcile`: the `checks`
unfoldable pub reconcile : Bool → Build → Result Error (List Check)
unfolding record_totals graph_checks figure_checks leaf_checks
reconcile with_scf b =
    let totals = record_totals b in
    do
      spine ← figure_checks totals.recon spine_checks
      scf ← figure_checks totals.recon (if with_scf then scf_checks else [])
      ok (graph_checks b.scg ++ spine ++ leaf_checks totals.recon ++ scf)

-- `hard_failures` and `soft_failures`
abbrev pub hard_failures : List Check → List Check
hard_failures checks = keep (λ c. c.hard && not c.pass) checks

abbrev pub soft_failures : List Check → List Check
soft_failures checks = keep (λ c. not c.hard && not c.pass) checks
