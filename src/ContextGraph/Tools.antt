-- ===== src/ContextGraph/Tools.antt =====
-- The tools that security-context-graph/scg_mcp.py offers beside the search of `paths`: `stats`,
-- `find_node`, `node`, `neighbors`, `coverage`, and the resolution of the two ends of `paths`.
use sdw_lab_benchmarks.Prelude.{
  ℕ, String, Bool, true, false, not, ◌&&◌, ◌||◌, Option, none, some, List, [], ◌∷◌, Dict, ◌==◌, ltb,
  leb, lookup, keep, map, length, take, any_of, is_empty, sort_by, string_eq, option_eq,
  if◌then◌else◌,
}
use sdw_lab_benchmarks.Prelude.Text.{starts_with}
use sdw_lab_benchmarks.Prelude.Edits.{is_blank}
use sdw_lab_benchmarks.Prelude.TextOrder.{text_le}
use sdw_lab_benchmarks.ContextGraph.Graph.{Edge, Direction, outward, inward, edges_at, trust}
use sdw_lab_benchmarks.ContextGraph.Index.{NodeRecord, Server, resolve, ntype_of, lbl, Brief, brief}
use sdw_lab_benchmarks.ContextGraph.Paths.{find_paths}
use sdw_lab_benchmarks.ContextGraph.Paths as Search

-- `PROXY_NOTE`
abbrev pub proxy_notes : Dict String String
proxy_notes =
    ("measured", "first-party measured mapping")
    ∷ ("skos_typed", "formal typed SKOS mapping in the D3FEND ontology")
    ∷ ("ontology_axiom", "ontology subclass/restriction axiom (logical entailment)")
    ∷ ("doc_link", "maintainer-authored cross-reference hyperlink")
    ∷ ("ontology_curated", "ontology-authored artifact relationship")
    ∷ ("curated", "hand-authored (MITRE/CTID) mitigation or tactic assignment")
    ∷ ("ctid_reroute", "re-routed through CTID's 800-53->ATT&CK mapping (one inference hop)")
    ∷ ("scf_strm", "SCF STRM framework crosswalk (vendor-authored)")
    ∷ ("derived", "derived rollup statistic")
    ∷ (
      "artifact_cooccurrence",
      "INFERRED from shared digital artifact, intent-blind -- do NOT state as an established relationship; counters!=detects",
    )
    ∷ ("unmapped", "explicit gap: no mapping exists (honest null, not a link)")
    ∷ []

pub record EdgeView : Type 0 where
  pub to : String
  pub to_label : String
  pub to_ntype : Option String
  pub rel : String
  pub dir : Direction
  pub tier : Option String
  pub proxy_quality : String
  pub trust_value : ℕ
  pub how : String
  pub weak : Bool
  pub scf : Bool

-- `_edge_view`
unfoldable pub edge_view : Server → Edge → EdgeView
unfolding lbl ntype_of trust lookup
edge_view s e = record {
  to = e.to;
  to_label = lbl s e.to;
  to_ntype = ntype_of s e.to;
  rel = e.rel;
  dir = e.dir;
  tier = e.tier;
  proxy_quality = e.proxy_quality;
  trust_value = trust e.proxy_quality;
  how = elim (lookup e.proxy_quality proxy_notes) [ none ↦ "unknown" | some note ↦ note ];
  weak = leb (trust e.proxy_quality) 25;
  scf = e.scf;
}

-- What a tool answers: that nothing matches, the candidates, or the answer.
pub data Reply (A : Type 0) : Type 0 where
  no_match : String → Reply A
  ambiguous : List Brief → Reply A
  answer : A → Reply A

-- The first lines of the tools: the node that `id` stands for, of the ids that match.
unfoldable pub one_node : Server → String → List String → Reply String
unfolding brief
one_node s id [] = no_match id
one_node s id (nid ∷ ids) =
    if not (nid == id) && not (is_empty ids)
    then ambiguous (map (brief s) (take 20 (nid ∷ ids)))
    else answer nid

abbrev pub then_answer : {A : Type 0} → {B : Type 0} → Reply A → (A → Reply B) → Reply B
then_answer (no_match q) f = no_match q
then_answer (ambiguous bs) f = ambiguous bs
then_answer (answer a) f = f a

-- `find_node`: the number of matches and the first of them
unfoldable pub find_node : Server → String → String → ℕ → ℕ × List Brief
unfolding resolve ntype_of brief
find_node s query ntype limit =
    let all = resolve s query in
    let ids =
      if is_blank ntype then all else keep (λ i. option_eq.beq (ntype_of s i) (some ntype)) all in
    (length ids, map (brief s) (take limit ids))

-- `node`: the record of the node and its brief
unfoldable pub node : Server → String → Reply (Option NodeRecord × Brief)
unfolding one_node resolve lookup brief
node s id =
    then_answer (one_node s id (resolve s id)) (λ nid. answer (lookup nid s.nodes, brief s nid))

-- `direction`
pub data Side : Type 0 where
  both : Side
  only : Direction → Side

abbrev pub same_direction : Direction → Direction → Bool
same_direction outward outward = true
same_direction outward inward = false
same_direction inward outward = false
same_direction inward inward = true

abbrev pub on_side : Side → Direction → Bool
on_side both d = true
on_side (only side) d = same_direction d side

-- The edges that the loop of `neighbors` does not pass over.
unfoldable pub is_wanted : Side → String → ℕ → Edge → Bool
unfolding starts_with trust
is_wanted side rel_prefix min_trust e =
    on_side side e.dir
    && (is_blank rel_prefix || starts_with e.rel rel_prefix)
    && not (ltb (trust e.proxy_quality) min_trust)

-- the order of `(-v["trust"], v["rel"])`
unfoldable pub view_le : EdgeView → EdgeView → Bool
unfolding text_le
view_le v w =
    if ltb w.trust_value v.trust_value
    then true
    else if ltb v.trust_value w.trust_value
    then false
    else text_le v.rel w.rel

pub record Neighbors : Type 0 where
  pub self : Brief
  pub neighbor_count : ℕ
  pub found : List EdgeView
  pub weak_links_present : Bool

-- `neighbors`, for a node
unfoldable pub neighbors_of : Server → Side → String → ℕ → ℕ → String → Neighbors
unfolding edges_at is_wanted edge_view sort_by view_le brief
neighbors_of s side rel_prefix min_trust limit nid =
    let out =
      sort_by view_le
        (map (edge_view s) (keep (is_wanted side rel_prefix min_trust) (edges_at s.adj nid))) in
    record {
      self = brief s nid;
      neighbor_count = length out;
      found = take limit out;
      weak_links_present = any_of (λ (v : EdgeView). v.weak) out;
    }

unfoldable pub neighbors : Server → String → Side → String → ℕ → ℕ → Reply Neighbors
unfolding one_node resolve neighbors_of
neighbors s id side rel_prefix min_trust limit =
    then_answer (one_node s id (resolve s id))
      (λ nid. answer (neighbors_of s side rel_prefix min_trust limit nid))

-- `paths`: both ends must match before either may be ambiguous.
unfoldable pub paths : Server → String → String → ℕ → ℕ → ℕ → Reply Search.Answer
unfolding one_node resolve find_paths
paths s src dst max_hops min_trust limit =
    let si = resolve s src in
    let di = resolve s dst in
    if is_empty si
    then no_match src
    else if is_empty di
    then no_match dst
    else then_answer (one_node s src si) (λ start.
      then_answer (one_node s dst di)
        (λ goal. answer (find_paths s.adj start goal max_hops min_trust limit)))
