-- ===== src/ContextGraph/Graph.antt =====
-- The graph that security-context-graph/scg_mcp.py loads: nodes, the adjacency that it builds from
-- the edges, and the trust of an edge. A trust is in hundredths.
use sdw_lab_benchmarks.Prelude.{
  ℕ, String, Bool, Option, none, some, List, [], ◌∷◌, ◌++◌, Dict, lookup, insert, bump, contains,
  add, nat_eq, string_eq, pair_eq, option_eq, if◌then◌else◌,
}

-- An edge of edges.json; `proxy_quality` may be missing.
pub record EdgeRecord : Type 0 where
  pub src : String
  pub dst : String
  pub rel : String
  pub tier : Option String
  pub proxy_quality : Option String
  pub proxy_note : String

pub data Direction : Type 0 where
  outward inward : Direction

-- An entry of the adjacency lists.
pub record Edge : Type 0 where
  pub to : String
  pub rel : String
  pub tier : Option String
  pub proxy_quality : String
  pub proxy_note : String
  pub dir : Direction
  pub scf : Bool

abbrev pub Adjacency : Type 0
Adjacency = Dict String (List Edge)

-- `adj[n]` of a `defaultdict(list)`
unfoldable pub edges_at : Adjacency → String → List Edge
edges_at adj n = elim (lookup n adj) [ none ↦ [] | some edges ↦ edges ]

-- `TRUST`
abbrev pub trust_table : Dict String ℕ
trust_table =
    ("measured", 100)
    ∷ ("skos_typed", 90)
    ∷ ("ontology_axiom", 85)
    ∷ ("doc_link", 80)
    ∷ ("ontology_curated", 70)
    ∷ ("curated", 65)
    ∷ ("ctid_reroute", 50)
    ∷ ("scf_strm", 45)
    ∷ ("derived", 40)
    ∷ ("artifact_cooccurrence", 25)
    ∷ ("unmapped", 0)
    ∷ []

-- `_trust`
unfoldable pub trust : String → ℕ
trust pq = elim (lookup pq trust_table) [ none ↦ 30 | some t ↦ t ]

-- (src, dst, rel, proxy_quality)
abbrev pub EdgeKey : Type 0
EdgeKey = (String × String) × (String × Option String)

abbrev pub edge_key : EdgeRecord → EdgeKey
edge_key e = ((e.src, e.dst), (e.rel, e.proxy_quality))

abbrev pub quality : EdgeRecord → String
quality e = elim e.proxy_quality [ none ↦ "" | some pq ↦ pq ]

abbrev pub forward : Bool → EdgeRecord → Edge
forward scf e = record {
  to = e.dst;
  rel = e.rel;
  tier = e.tier;
  proxy_quality = quality e;
  proxy_note = e.proxy_note;
  dir = outward;
  scf = scf;
}

abbrev pub reverse : Bool → EdgeRecord → Edge
reverse scf e = record (forward scf e) { to = e.src; dir = inward }

-- `adj[n].append(e)`
unfoldable pub append_edge : String → Edge → Adjacency → Adjacency
unfolding edges_at
append_edge n e adj = insert n (edges_at adj n ++ e ∷ []) adj

-- The state of the loop over the edges.
pub record Loading : Type 0 where
  pub adj : Adjacency
  pub edge_pq : Dict String ℕ
  pub seen : List EdgeKey

unfoldable pub load_edge : Bool → Loading → EdgeRecord → Loading
unfolding append_edge
load_edge scf s e = if contains s.seen (edge_key e) then s else record {
  adj = append_edge e.dst (reverse scf e) (append_edge e.src (forward scf e) s.adj);
  edge_pq = bump (quality e) s.edge_pq;
  seen = add (edge_key e) s.seen;
}

unfoldable pub load_edges : Bool → Loading → List EdgeRecord → Loading
unfolding load_edge
load_edges scf s [] = s
load_edges scf s (e ∷ edges) = load_edges scf (load_edge scf s e) edges

-- The part of `_load` that reads the edges; `seen` is its own.
abbrev pub load : Bool → Adjacency → Dict String ℕ → List EdgeRecord → Loading
load scf adj edge_pq edges =
    load_edges scf (record { adj = adj; edge_pq = edge_pq; seen = [] }) edges
