-- ===== src/ContextGraph/Mirror.antt =====
-- The two entries of an edge in the adjacency.
use mathlib.Core.List.{Memᴰ}
use mathlib.Core.List.Memᴰ.{head, tail}
use mathlib.Core.List.Memᴰ as Member
use sdw_lab_benchmarks.Prelude.{
  ℕ, String, Bool, true, ◌≡◌, ◌⊎◌, inl, inr, refl, sym, subst, arith, List, [], ◌∷◌, ◌++◌, Dict,
  lookup-insert, contains, ◌==◌, string_eq, pair_eq, option_eq, eq_iff, if◌then◌else◌, Bool-cases,
}
use sdw_lab_benchmarks.ContextGraph.Graph.{
  EdgeRecord, Edge, Direction, outward, inward, Adjacency, edges_at, edge_key, forward, reverse,
  append_edge, Loading, load_edge, load_edges, load,
}

abbrev pub opposite : Direction → Direction
opposite outward = inward
opposite inward = outward

-- The entry of the same edge at its other end, where `e` stands in the list of `n`.
abbrev pub mirror : String → Edge → Edge
mirror n e = record e { to = n; dir = opposite e.dir }

abbrev pub IsMirrored : Adjacency → Type 0
IsMirrored adj =
    (n : String) (e : Edge) → Memᴰ e (edges_at adj n) → Memᴰ (mirror n e) (edges_at adj e.to)

edges_at-append_edge :
    (m n : String) (e : Edge) (adj : Adjacency)
    → edges_at (append_edge n e adj) m
      ≡ (if m == n then edges_at adj n ++ e ∷ [] else edges_at adj m)
unfolding append_edge edges_at
edges_at-append_edge m n e adj = ground (arith, lookup-insert n m (edges_at adj n ++ e ∷ []) adj)

append_edge-keeps :
    (n : String) (e : Edge) (adj : Adjacency) (m : String) (x : Edge)
    → Memᴰ x (edges_at adj m)
    → Memᴰ x (edges_at (append_edge n e adj) m)
append_edge-keeps n e adj m x h = elim (Bool-cases (m == n)) [
  | inl same ↦
      let q : m ≡ n = (eq_iff m n).0 same in
      rw (edges_at-append_edge, same)
        (Member.append_left (e ∷ []) (subst (λ k. Memᴰ x (edges_at adj k)) q h))
  | inr other ↦ rw (edges_at-append_edge, other) h
]

mem-append_edge :
    (n : String) (e : Edge) (adj : Adjacency) → Memᴰ e (edges_at (append_edge n e adj) n)
mem-append_edge n e adj =
    let same : (n == n) ≡ true = (eq_iff n n).1 refl in
    rw (edges_at-append_edge, same) (Member.append_right (edges_at adj n) (head refl))

mem_snoc {ℓ} : {A : Type ℓ} (xs : List A) {x a : A} → Memᴰ x (xs ++ a ∷ []) → Memᴰ x xs ⊎ (x ≡ a)
mem_snoc [] m = elim (Member.cases_cons m) [ inl e ↦ inr e | inr no_more ↦ inl no_more ]
mem_snoc (y ∷ xs) m = elim (Member.cases_cons m) [
  | inl e ↦ inl (head e)
  | inr m' ↦ elim (mem_snoc xs m') [ inl old ↦ inl (tail old) | inr new ↦ inr new ]
]

append_edge-cases :
    (n : String) (e : Edge) (adj : Adjacency) (m : String) (x : Edge)
    → Memᴰ x (edges_at (append_edge n e adj) m)
    → Memᴰ x (edges_at adj m) ⊎ ((m ≡ n) × (x ≡ e))
append_edge-cases n e adj m x h = elim (Bool-cases (m == n)) [
  | inl same ↦
      let q : m ≡ n = (eq_iff m n).0 same in
      let h' = rw (edges_at-append_edge, same) at h in
      elim (mem_snoc (edges_at adj n) h') [
        | inl old ↦ inl (subst (λ k. Memᴰ x (edges_at adj k)) (sym q) old)
        | inr new ↦ inr (q, new)
      ]
  | inr other ↦ inl (rw (edges_at-append_edge, other) at h)
]

load_edge-IsMirrored :
    (scf : Bool) (s : Loading) (e : EdgeRecord)
    → IsMirrored s.adj
    → IsMirrored (load_edge scf s e).adj
unfolding load_edge
load_edge-IsMirrored scf s e mirrored = elim (Bool-cases (contains s.seen (edge_key e))) [
  | inl old ↦ rw (old, load_edge) mirrored
  | inr new ↦
      let one = append_edge e.src (forward scf e) s.adj in
      let fwd =
        append_edge-keeps e.dst (reverse scf e) one e.src (forward scf e)
          (mem-append_edge e.src (forward scf e) s.adj) in
      let rev = mem-append_edge e.dst (reverse scf e) one in
      rw (new, load_edge)
        (λ n x m. elim (append_edge-cases e.dst (reverse scf e) one n x m) [
          | inr (at_dst, is_rev) ↦ rw (at_dst, is_rev) fwd
          | inl m' ↦ elim (append_edge-cases e.src (forward scf e) s.adj n x m') [
            | inr (at_src, is_fwd) ↦ rw (at_src, is_fwd) rev
            | inl m'' ↦
                append_edge-keeps e.dst (reverse scf e) one x.to (mirror n x) (
                  append_edge-keeps e.src (forward scf e) s.adj x.to (mirror n x)
                    (mirrored n x m''))
          ]
        ])
]

load_edges-IsMirrored :
    (scf : Bool) (s : Loading) (edges : List EdgeRecord)
    → IsMirrored s.adj
    → IsMirrored (load_edges scf s edges).adj
unfolding load_edges
load_edges-IsMirrored scf s [] mirrored = mirrored
load_edges-IsMirrored scf s (e ∷ edges) mirrored =
    load_edges-IsMirrored scf (load_edge scf s e) edges (load_edge-IsMirrored scf s e mirrored)

-- Loading a layer keeps the adjacency mirrored, and so the graph of one layer or of two is: each
-- entry in the list of a node has the entry of the same edge, in the opposite direction, in the list
-- of the node that it leads to.
pub load-IsMirrored :
    (scf : Bool) (adj : Adjacency) (edge_pq : Dict String ℕ) (edges : List EdgeRecord)
    → IsMirrored adj
    → IsMirrored (load scf adj edge_pq edges).adj
load-IsMirrored scf adj edge_pq edges mirrored = load_edges-IsMirrored scf _ edges mirrored
