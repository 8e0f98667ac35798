-- ===== src/ConceptGraph/Grows.antt =====
-- The graph under `SCG.node` and `SCG.edge`.
use mathlib.Core.List.{append_assoc, append-nil}
use sdw_lab_benchmarks.Prelude.{
  ◌≡◌, refl, sym, arith, String, Bool, true, false, not, ◌||◌, Option, some, List, [], ◌∷◌, ◌++◌,
  ◌==◌, All, All-append, Dict, keys, insert, lookup, lookup-insert, lookup-eq-none_iff, contains,
  contains-keys-insert, string_eq, eq_iff, if◌then◌else◌, All-map, Option-cases, Bool-cases, inl,
  inr,
}
use sdw_lab_benchmarks.ContextGraph.Graph.{trust_table}
use sdw_lab_benchmarks.ConceptGraph.Scaffold.{
  event_ntypes, NodeAttrs, EdgeAttrs, Scg, has_node, node, edge,
}

-- The type of a node is no event type.
unfoldable pub is_concept : String → Bool
unfolding contains
is_concept ntype = not (contains event_ntypes ntype)

-- The server has a trust for the quality.
unfoldable pub is_rated : String → Bool
unfolding contains
is_rated proxy_quality = contains (keys trust_table) proxy_quality

-- An edge joins nodes of the graph and has a rated quality.
abbrev pub IsJoined : Scg → EdgeAttrs → Type 0
IsJoined scg e =
    (has_node scg e.src ≡ true)
    × (has_node scg e.dst ≡ true)
    × (is_rated e.proxy_quality ≡ true)
    × (e.tier ≡ "A")

-- Every node is a concept, and every edge is joined.
abbrev pub IsConceptGraph : Scg → Type 0
IsConceptGraph scg =
    All (λ (n : String × NodeAttrs). is_concept n.1.ntype ≡ true) scg.nodes
    × All (IsJoined scg) scg.edges

-- A graph that holds what another one does: nodes keep their attributes and edges their places, and
-- it is as sound.
pub record Grows (scg scg' : Scg) : Type 0 where
  pub sound : IsConceptGraph scg → IsConceptGraph scg'
  pub same_nodes :
      (nid : String) (a : NodeAttrs)
      → lookup nid scg.nodes ≡ some a
      → lookup nid scg'.nodes ≡ some a
  pub more_edges : (more : List EdgeAttrs) × (scg'.edges ≡ scg.edges ++ more)

has_node-node :
    (nid ntype label : String) (attrs : Dict String (Option String)) (scg : Scg) (x : String)
    → has_node (node nid ntype label attrs scg) x ≡ (x == nid || has_node scg x)
unfolding has_node node
has_node-node nid ntype label attrs scg x =
    let a : NodeAttrs = record { ntype = ntype; label = label; attrs = attrs } in
    ground (arith, contains-keys-insert nid x a scg.nodes, eq_iff x nid)

pub has_node_self :
    (nid ntype label : String) (attrs : Dict String (Option String)) (scg : Scg)
    → has_node (node nid ntype label attrs scg) nid ≡ true
has_node_self nid ntype label attrs scg =
    ground (arith, has_node-node nid ntype label attrs scg nid, eq_iff nid nid)

pub has_node_still :
    (nid ntype label : String) (attrs : Dict String (Option String)) (scg : Scg) (x : String)
    → has_node scg x ≡ true
    → has_node (node nid ntype label attrs scg) x ≡ true
has_node_still nid ntype label attrs scg x h =
    ground (arith, has_node-node nid ntype label attrs scg x)

pub has_node-edge :
    (src dst rel tier pq file note : String) (scg : Scg) (x : String)
    → has_node scg x ≡ true
    → has_node (edge src dst rel tier pq file note scg) x ≡ true
unfolding has_node edge
has_node-edge src dst rel tier pq file note scg x h = h

lookup-has_node :
    (scg : Scg) (x : String)
    → has_node scg x ≡ true
    → (a : NodeAttrs) × (lookup x scg.nodes ≡ some a)
unfolding has_node
lookup-has_node scg x h = elim (Option-cases (lookup x scg.nodes)) [
  | inl missing ↦ absurd (ground (arith, (lookup-eq-none_iff x scg.nodes).0 missing))
  | inr found ↦ found
]

has_node-lookup :
    (scg : Scg) (x : String) (a : NodeAttrs) → lookup x scg.nodes ≡ some a → has_node scg x ≡ true
unfolding has_node
has_node-lookup scg x a h = ground (arith, lookup-eq-none_iff x scg.nodes)

pub Grows-has_node :
    {scg scg' : Scg}
    → Grows scg scg'
    → (x : String) → has_node scg x ≡ true
    → has_node scg' x ≡ true
Grows-has_node {scg} {scg'} g x h =
    let (a, found) = lookup-has_node scg x h in has_node-lookup scg' x a (g.same_nodes x a found)

pub Grows-refl : (scg : Scg) → Grows scg scg
Grows-refl scg = record {
  sound = λ c. c;
  same_nodes = λ nid a h. h;
  more_edges = ([], sym (append-nil scg.edges));
}

pub Grows-trans : {scg scg' scg'' : Scg} → Grows scg scg' → Grows scg' scg'' → Grows scg scg''
Grows-trans {scg} g h =
    let (more, e) = g.more_edges in
    let (more', e') = h.more_edges in
    record {
      sound = λ c. h.sound (g.sound c);
      same_nodes = λ nid a found. h.same_nodes nid a (g.same_nodes nid a found);
      more_edges = (more ++ more', rw (e', e) (append_assoc scg.edges more more'));
    }

IsJoined-Grows :
    (scg scg' : Scg) (es : List EdgeAttrs)
    → ((x : String) → has_node scg x ≡ true → has_node scg' x ≡ true)
    → All (IsJoined scg) es
    → All (IsJoined scg') es
IsJoined-Grows scg scg' es h joined =
    All-map (IsJoined scg) (IsJoined scg') (λ e j. (h e.src j.0, h e.dst j.1, j.2, j.3)) es joined

concepts-insert :
    (nid : String) (a : NodeAttrs) (ns : Dict String NodeAttrs)
    → is_concept a.ntype ≡ true
    → All (λ (n : String × NodeAttrs). is_concept n.1.ntype ≡ true) ns
    → All (λ (n : String × NodeAttrs). is_concept n.1.ntype ≡ true) (insert nid a ns)
unfolding insert
concepts-insert nid a [] h all = (h, tt)
concepts-insert nid a ((j, b) ∷ ns) h all = elim (Bool-cases (nid == j)) [
  | inl same ↦ rw (same) (h, all.1)
  | inr other ↦ rw (other) (all.0, concepts-insert nid a ns h all.1)
]

insert_still :
    (nid : String) (a : NodeAttrs) (scg : Scg) (x : String)
    → has_node scg x ≡ true
    → has_node (record scg { nodes = insert nid a scg.nodes }) x ≡ true
unfolding has_node
insert_still nid a scg x h = ground (arith, contains-keys-insert nid x a scg.nodes)

inserted_same :
    (nid : String) (a : NodeAttrs) (scg : Scg) (x : String) (b : NodeAttrs)
    → has_node scg nid ≡ false
    → lookup x scg.nodes ≡ some b
    → lookup x (insert nid a scg.nodes) ≡ some b
inserted_same nid a scg x b new found =
    let old = has_node-lookup scg x b found in
    let other : x == nid ≡ false = ground (arith, old, eq_iff x nid) in
    rw (lookup-insert, other) found

-- A node is written.
node-is_Grows :
    (nid ntype label : String) (attrs : Dict String (Option String)) (scg : Scg)
    → is_concept ntype ≡ true
    → Grows scg (node nid ntype label attrs scg)
unfolding node
node-is_Grows nid ntype label attrs scg h = elim (Bool-cases (has_node scg nid)) [
  | inl old ↦ rw (old) (Grows-refl scg)
  | inr new ↦
      let a : NodeAttrs = record { ntype = ntype; label = label; attrs = attrs } in
      let scg' : Scg = record scg { nodes = insert nid a scg.nodes } in
      rw (new) record {
        sound = λ c. (
          concepts-insert nid a scg.nodes h c.0,
          IsJoined-Grows scg scg' scg.edges (λ x e. insert_still nid a scg x e) c.1,
        );
        same_nodes = λ x b found. inserted_same nid a scg x b new found;
        more_edges = ([], sym (append-nil scg.edges));
      }
]

pub Grows-node :
    (nid ntype label : String) (attrs : Dict String (Option String)) {scg scg' : Scg}
    → is_concept ntype ≡ true
    → Grows scg scg'
    → Grows scg (node nid ntype label attrs scg')
Grows-node nid ntype label attrs {scg} {scg'} h g =
    Grows-trans g (node-is_Grows nid ntype label attrs scg' h)

edge-is_Grows :
    (src dst rel pq file note : String) (scg : Scg)
    → has_node scg src ≡ true
    → has_node scg dst ≡ true
    → is_rated pq ≡ true
    → Grows scg (edge src dst rel "A" pq file note scg)
unfolding edge has_node
edge-is_Grows src dst rel pq file note scg from to rated = record {
  sound = λ c. (c.0, All-append (IsJoined scg) scg.edges _ c.1 ((from, to, rated, refl), tt));
  same_nodes = λ x b found. found;
  more_edges = (_, refl);
}

pub Grows-edge :
    (src dst rel pq file note : String) {scg scg' : Scg}
    → has_node scg' src ≡ true
    → has_node scg' dst ≡ true
    → is_rated pq ≡ true
    → Grows scg scg'
    → Grows scg (edge src dst rel "A" pq file note scg')
Grows-edge src dst rel pq file note {scg} {scg'} from to rated g =
    Grows-trans g (edge-is_Grows src dst rel pq file note scg' from to rated)

-- A step of a loop that is made under a test; `scg_of` is the graph of the loop's state.
pub Grows-if {ℓ} :
    {S : Type ℓ} (scg_of : S → Scg) (test : Bool) (s next : S)
    → Grows (scg_of s) (scg_of next)
    → Grows (scg_of s) (scg_of (if test then next else s))
Grows-if scg_of true s next g = g
Grows-if scg_of false s next g = Grows-refl (scg_of s)

-- The rules of a chain of nodes and edges.
pub ruleset growing =
    (Grows-node, Grows-edge, Grows-refl, has_node_self, has_node_still, has_node-edge)
