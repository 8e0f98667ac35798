-- ===== src/ContextGraph/Coverage.antt =====
-- What covers an attack, security-context-graph/scg_mcp.py (`coverage`).
use sdw_lab_benchmarks.Prelude.{
  ℕ, String, Bool, not, ◌&&◌, ◌||◌, some, List, [], ◌∷◌, ◌++◌, ◌==◌, ltb, leb, keep, map, length,
  take, is_empty, sort_by, string_eq, option_eq, if◌then◌else◌,
}
use sdw_lab_benchmarks.ContextGraph.Graph.{Edge, edges_at, trust}
use sdw_lab_benchmarks.ContextGraph.Index.{Server, resolve, ntype_of, Brief, brief}
use sdw_lab_benchmarks.ContextGraph.Tools.{EdgeView, edge_view, Reply, no_match, ambiguous, answer}

unfoldable pub has_ntype : Server → String → String → Bool
unfolding ntype_of
has_ntype s ntype nid = option_eq.beq (ntype_of s nid) (some ntype)

-- The lists that the loop over the edges fills.
pub record CoverLists : Type 0 where
  pub defenses : List EdgeView
  pub mitigations : List EdgeView
  pub tactics : List EdgeView

-- The body of the loop.
unfoldable pub cover_edge : Server → ℕ → Edge → CoverLists → CoverLists
unfolding has_ntype edge_view trust
cover_edge s min_trust e c =
    let v = edge_view s e in
    if ltb (trust e.proxy_quality) min_trust
    then c
    else if e.rel == "may_counter" || has_ntype s "defense" e.to
    then record c { defenses = c.defenses ++ v ∷ [] }
    else if has_ntype s "attack_mitigation" e.to || e.rel == "curated_mitigation"
    then record c { mitigations = c.mitigations ++ v ∷ [] }
    else if has_ntype s "attack_tactic" e.to || e.rel == "in_tactic"
    then record c { tactics = c.tactics ++ v ∷ [] }
    else c

unfoldable pub cover_edges : Server → ℕ → List Edge → CoverLists → CoverLists
unfolding cover_edge
cover_edges s min_trust [] c = c
cover_edges s min_trust (e ∷ edges) c = cover_edges s min_trust edges (cover_edge s min_trust e c)

-- the order of `-v["trust"]`
unfoldable pub trust_le : EdgeView → EdgeView → Bool
trust_le v w = leb w.trust_value v.trust_value

pub record Items : Type 0 where
  pub count : ℕ
  pub items : List EdgeView

pub record Covering : Type 0 where
  pub technique : Brief
  pub tactics : List EdgeView
  pub defenses_may_counter : Items
  pub curated_mitigations : Items

-- `coverage`, for a node
unfoldable pub coverage_of : Server → ℕ → ℕ → String → Covering
unfolding cover_edges edges_at sort_by trust_le brief
coverage_of s min_trust limit nid =
    let c =
      cover_edges s min_trust (edges_at s.adj nid)
        (record { defenses = []; mitigations = []; tactics = [] }) in
    let defenses = sort_by trust_le c.defenses in
    record {
      technique = brief s nid;
      tactics = c.tactics;
      defenses_may_counter = record { count = length defenses; items = take limit defenses };
      curated_mitigations = record {
        count = length c.mitigations;
        items = take limit c.mitigations;
      };
    }

-- The ids that are attacks, or all where none is.
unfoldable pub attack_ids : Server → List String → List String
unfolding has_ntype
attack_ids s ids =
    let attacks = keep (has_ntype s "attack") ids in if is_empty attacks then ids else attacks

unfoldable pub pick_attack : Server → String → List String → Reply String
unfolding has_ntype brief
pick_attack s attack [] = no_match attack
pick_attack s attack (nid ∷ ids) =
    if not (nid == attack) && not (is_empty ids)
    then ambiguous (map (brief s) (keep (has_ntype s "attack") (take 20 (nid ∷ ids))))
    else answer nid

-- `coverage`
unfoldable pub coverage : Server → String → ℕ → ℕ → Reply Covering
unfolding pick_attack attack_ids resolve coverage_of
coverage s attack min_trust limit = elim (pick_attack s attack (attack_ids s (resolve s attack))) [
  | no_match q ↦ no_match q
  | ambiguous bs ↦ ambiguous bs
  | answer nid ↦ answer (coverage_of s min_trust limit nid)
]
