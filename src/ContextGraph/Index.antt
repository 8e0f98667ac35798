-- ===== src/ContextGraph/Index.antt =====
-- The nodes of the graph that security-context-graph/scg_mcp.py serves: the part of `_load` that
-- reads them, `resolve`, `lbl` and `brief`.
use sdw_lab_benchmarks.Prelude.{
  ℕ, ◌-◌, String, Bool, not, ◌&&◌, Option, none, some, List, [], ◌∷◌, ◌++◌, Dict, keys, lookup,
  insert, contains, keep, length, take, count_if, string_eq, if◌then◌else◌,
}
use sdw_lab_benchmarks.Prelude.Text.{split, is_in}
use sdw_lab_benchmarks.Prelude.Edits.{or_else, ◌⧺◌, to_lower, last_of}
use sdw_lab_benchmarks.ContextGraph.Graph.{
  EdgeRecord, Edge, outward, inward, Adjacency, edges_at, load,
}

-- A node of nodes.json; `label` is empty where it is missing.
pub record NodeRecord : Type 0 where
  pub id : String
  pub ntype : Option String
  pub label : String
  pub attrs : Dict String String

-- The state of `Graph`.
pub record Server : Type 0 where
  pub nodes : Dict String NodeRecord
  pub label_index : Dict String (List String)
  pub adj : Adjacency
  pub edge_pq : Dict String ℕ
  pub loaded_scf : Bool

-- `label_index[l].append(nid)`
unfoldable pub append_label :
    String → String → Dict String (List String) → Dict String (List String)
unfolding lookup insert
append_label l nid index =
    insert l ((elim (lookup l index) [ none ↦ [] | some ids ↦ ids ]) ++ nid ∷ []) index

-- The body of the loop over the nodes.
unfoldable pub load_node : NodeRecord → Server → Server
unfolding append_label contains insert to_lower
load_node a s = if contains (keys s.nodes) a.id then s else record s {
  nodes = insert a.id a s.nodes;
  label_index = append_label (to_lower a.label) a.id s.label_index;
}

unfoldable pub load_nodes : List NodeRecord → Server → Server
unfolding load_node
load_nodes [] s = s
load_nodes (a ∷ nodes) s = load_nodes nodes (load_node a s)

-- A directory with nodes.json and edges.json.
pub record ResultsDir : Type 0 where
  pub nodes : List NodeRecord
  pub edges : List EdgeRecord

-- `_load`
unfoldable pub load_dir : Bool → ResultsDir → Server → Server
unfolding load_nodes
load_dir scf d s =
    let named = load_nodes d.nodes s in
    let loading = load scf named.adj named.edge_pq d.edges in
    record named { adj = loading.adj; edge_pq = loading.edge_pq }

abbrev pub empty_server : Server
empty_server = record {
  nodes = [];
  label_index = [];
  adj = [];
  edge_pq = [];
  loaded_scf = Bool.false;
}

-- `Graph.__init__`; `scf_dir` is none where the layer is off or its directory does not exist.
unfoldable pub start_server : ResultsDir → Option ResultsDir → Server
unfolding load_dir
start_server results none = load_dir Bool.false results empty_server
start_server results (some scf_dir) =
    record (load_dir Bool.true scf_dir (load_dir Bool.false results empty_server)) {
      loaded_scf = Bool.true;
    }

abbrev pub prefixes : List String
prefixes = "attack:" ∷ "d3f:" ∷ "ocsf:class/" ∷ "ocsf:object/" ∷ "ocsf:" ∷ "scf:" ∷ []

-- The loop over the prefixes.
unfoldable pub find_prefixed : Server → String → List String → Option String
unfolding contains
find_prefixed s q [] = none
find_prefixed s q (pfx ∷ pfxs) =
    let rest = find_prefixed s q pfxs in
    if contains (keys s.nodes) (pfx ⧺ q) then some (pfx ⧺ q) else rest

-- The ids under the labels that hold the text.
unfoldable pub label_hits : String → Dict String (List String) → List String
unfolding is_in
label_hits ql [] = []
label_hits ql ((lbl, ids) ∷ index) =
    let rest = label_hits ql index in if is_in ql lbl then ids ++ rest else rest

-- The ids that hold the text and are no hits yet.
unfoldable pub id_hits : String → List String → List String → List String
unfolding is_in to_lower contains
id_hits ql hits ids = keep (λ nid. is_in ql (to_lower nid) && not (contains hits nid)) ids

unfoldable pub substring_hits : Server → String → List String
unfolding label_hits id_hits
substring_hits s ql =
    let hits = label_hits ql s.label_index in take 50 (hits ++ id_hits ql hits (keys s.nodes))

-- `resolve`, for a query that is no id
unfoldable pub resolve_text : Server → String → List String
unfolding find_prefixed substring_hits lookup to_lower
resolve_text s q = elim (find_prefixed s q prefixes) [
  | some nid ↦ nid ∷ []
  | none ↦ elim (lookup (to_lower q) s.label_index) [
    | some ids ↦ ids
    | none ↦ substring_hits s (to_lower q)
  ]
]

unfoldable pub resolve : Server → String → List String
unfolding resolve_text contains
resolve s q = if contains (keys s.nodes) q then q ∷ [] else resolve_text s q

-- `self.nodes.get(nid, {}).get("ntype")`
unfoldable pub ntype_of : Server → String → Option String
unfolding lookup
ntype_of s nid = elim (lookup nid s.nodes) [ none ↦ none | some a ↦ a.ntype ]

-- `lbl`
unfoldable pub lbl : Server → String → String
unfolding lookup split
lbl s nid =
    let cleaned = last_of (split ":" (last_of (split "/" nid))) in
    elim (lookup nid s.nodes) [ none ↦ cleaned | some a ↦ or_else a.label cleaned ]

pub record Brief : Type 0 where
  pub id : String
  pub ntype : Option String
  pub label : String
  pub degree_out : ℕ
  pub degree_in : ℕ

abbrev pub is_outward : Edge → Bool
is_outward e = elim e.dir [ outward ↦ Bool.true | inward ↦ Bool.false ]

-- `brief`
unfoldable pub brief : Server → String → Brief
unfolding ntype_of lbl edges_at
brief s nid =
    let out = count_if is_outward (edges_at s.adj nid) in
    record {
      id = nid;
      ntype = ntype_of s nid;
      label = lbl s nid;
      degree_out = out;
      degree_in = length (edges_at s.adj nid) - out;
    }
