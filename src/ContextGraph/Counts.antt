-- ===== src/ContextGraph/Counts.antt =====
-- The number of edges that the server reports, and the adjacency.
use sdw_lab_benchmarks.Prelude.{
  ℕ, ◌+◌, ◌*◌, String, Bool, ◌≡◌, refl, arith, none, some, List, [], ◌∷◌, ◌++◌, Dict, lookup,
  insert, bump, get_count, contains, add, IsDistinct, add-IsDistinct, length, length-append,
  string_eq, pair_eq, option_eq, Bool-cases, Option-cases, inl, inr,
}
use sdw_lab_benchmarks.ContextGraph.Graph.{
  EdgeRecord, Edge, Adjacency, edges_at, quality, edge_key, forward, reverse, append_edge, Loading,
  load_edge, load_edges, load,
}

module _ {ℓ} {V : Type ℓ} (w : V → ℕ) where
  abbrev pub total : Dict String V → ℕ
  total [] = 0
  total ((_, v) ∷ d) = w v + total d

  weight_at : String → Dict String V → ℕ
  weight_at k d = elim (lookup k d) [ none ↦ 0 | some v ↦ w v ]

  total-insert :
      (k : String) (v : V) (d : Dict String V)
      → total (insert k v d) + weight_at k d ≡ total d + w v
  unfolding weight_at insert lookup
  total-insert k v [] = omega arith
  total-insert k v ((j, x) ∷ d) = ground (arith, total-insert k v d)

-- `sum(edge_pq.values())`, the `edges_deduped` of `stats`
abbrev pub edges_deduped : Dict String ℕ → ℕ
edges_deduped = total (λ (n : ℕ). n)

-- The entries of all adjacency lists: the sum of the degrees of the nodes.
abbrev pub entries : Adjacency → ℕ
entries = total (λ (edges : List Edge). length edges)

entries-append_edge :
    (n : String) (e : Edge) (adj : Adjacency) → entries (append_edge n e adj) ≡ entries adj + 1
unfolding append_edge edges_at weight_at
entries-append_edge n e adj =
    let grown =
      total-insert (λ (edges : List Edge). length edges) n (edges_at adj n ++ e ∷ []) adj in
    let longer = length-append (edges_at adj n) (e ∷ []) in
    elim (Option-cases (lookup n adj)) [
      | inl missing ↦ ground (arith, grown, longer, missing)
      | inr (edges, there) ↦ ground (arith, grown, longer, there)
    ]

edges_deduped-bump :
    (k : String) (d : Dict String ℕ) → edges_deduped (bump k d) ≡ edges_deduped d + 1
unfolding bump weight_at
edges_deduped-bump k d =
    let counted = total-insert (λ (n : ℕ). n) k (get_count k d + 1) d in ground (arith, counted)

-- A graph whose entries are two for each edge counted.
abbrev pub IsCounted : Loading → Type 0
IsCounted s = entries s.adj ≡ 2 * edges_deduped s.edge_pq

load_edges-IsCounted :
    (scf : Bool) (s : Loading) (edges : List EdgeRecord)
    → IsCounted s
    → IsCounted (load_edges scf s edges)
      × (edges_deduped (load_edges scf s edges).edge_pq + length s.seen
          ≡ edges_deduped s.edge_pq + length (load_edges scf s edges).seen)
unfolding load_edges
load_edges-IsCounted scf s [] counted = (counted, refl)
load_edges-IsCounted scf s (e ∷ edges) counted = elim (Bool-cases (contains s.seen (edge_key e))) [
  | inl old ↦ rw (old, load_edges, load_edge) (load_edges-IsCounted scf s edges counted)
  | inr new ↦
      let one = append_edge e.src (forward scf e) s.adj in
      let first = entries-append_edge e.src (forward scf e) s.adj in
      let second = entries-append_edge e.dst (reverse scf e) one in
      let bumped = edges_deduped-bump (quality e) s.edge_pq in
      let s' = load_edge scf s e in
      let counted' : IsCounted s' =
        (unfold load_edge in rw new (omega (arith, first, second, bumped, counted))) in
      let seen' : length s'.seen ≡ length s.seen + 1 =
        (unfold load_edge add in rw new (omega arith)) in
      let pq' : edges_deduped s'.edge_pq ≡ edges_deduped s.edge_pq + 1 =
        (unfold load_edge in rw new bumped) in
      let (rest, more) = load_edges-IsCounted scf s' edges counted' in
      (rest, omega (arith, more, seen', pq'))
]

load_edges-IsDistinct :
    (scf : Bool) (s : Loading) (edges : List EdgeRecord)
    → IsDistinct s.seen
    → IsDistinct (load_edges scf s edges).seen
unfolding load_edges
load_edges-IsDistinct scf s [] d = d
load_edges-IsDistinct scf s (e ∷ edges) d = elim (Bool-cases (contains s.seen (edge_key e))) [
  | inl old ↦ rw (old, load_edges, load_edge) (load_edges-IsDistinct scf s edges d)
  | inr new ↦
      let s' = load_edge scf s e in
      let d' : IsDistinct s'.seen =
        (unfold load_edge in rw new (add-IsDistinct (edge_key e) s.seen d)) in
      load_edges-IsDistinct scf s' edges d'
]

-- Where the entries of the adjacency lists are two for each edge counted by quality, they still are
-- after a layer is loaded; the counts have grown by the number of the keys seen, of which no two are
-- equal.
pub load-IsCounted :
    (scf : Bool) (adj : Adjacency) (edge_pq : Dict String ℕ) (edges : List EdgeRecord)
    → entries adj ≡ 2 * edges_deduped edge_pq
    → (entries (load scf adj edge_pq edges).adj
        ≡ 2 * edges_deduped (load scf adj edge_pq edges).edge_pq)
      × (edges_deduped (load scf adj edge_pq edges).edge_pq
          ≡ edges_deduped edge_pq + length (load scf adj edge_pq edges).seen)
      × IsDistinct (load scf adj edge_pq edges).seen
load-IsCounted scf adj edge_pq edges counted =
    let s : Loading = record { adj = adj; edge_pq = edge_pq; seen = [] } in
    let (two, more) = load_edges-IsCounted scf s edges counted in
    (two, omega (arith, more), load_edges-IsDistinct scf s edges tt)
