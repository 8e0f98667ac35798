-- ===== src/ContextGraph/Found.antt =====
-- What the search finds.
use mathlib.Core.List.{Memᴰ}
use mathlib.Core.List.Memᴰ.{head, tail}
use mathlib.Core.List.Memᴰ as Member
use sdw_lab_benchmarks.Prelude.{
  ℕ, zero, suc, ◌-◌, ◌≤◌, String, false, ◌≡◌, ◌≢◌, ◌⊎◌, refl, arith, List, [], ◌∷◌, ◌++◌, length,
  ◌==◌, nat_eq, string_eq, eq_iff, Bool-cases, inl, inr, length-append,
}
use sdw_lab_benchmarks.ContextGraph.Graph.{Adjacency, Edge, edges_at}
use sdw_lab_benchmarks.ContextGraph.Paths.{
  Hop, hop_of, FoundPath, found_path, Search, is_spent, is_skipped, explore, arrive, dfs,
}

-- A path with these hops has been found.
abbrev pub IsFound : List Hop → Search → Type 0
IsFound hops s = (p : FoundPath) × Memᴰ p s.found × (p.hops ≡ hops)

-- A search goes on: it keeps what is found, and only spends.
pub record Extends (s t : Search) : Type 0 where
  pub more : length s.found ≤ length t.found
  pub less : t.budget ≤ s.budget
  pub keeps : (hops : List Hop) → IsFound hops s → IsFound hops t

pub Extends-refl : (s : Search) → Extends s s
Extends-refl s = record { more = omega arith; less = omega arith; keeps = λ hops f. f }

pub Extends-trans : (s t u : Search) → Extends s t → Extends t u → Extends s u
Extends-trans s t u a b = record {
  more = omega (arith, a.more, b.more);
  less = omega (arith, a.less, b.less);
  keeps = λ hops f. b.keeps hops (a.keeps hops f);
}

pub Extends-spend : (s : Search) → Extends s (record s { budget = s.budget - 1 })
Extends-spend s = record { more = omega arith; less = omega arith; keeps = λ hops f. f }

module _ (adj : Adjacency) (goal : String) (min_trust limit : ℕ) where
  -- What each visit of the loop keeps, the loop keeps.
  pub explore-keeps :
      (P : Search → Type 0) (visit : Edge → Search → Search) (on_path : List String)
      → ((s : Search) → P s → P (record s { budget = s.budget - 1 }))
      → (edges : List Edge)
      → ((e : Edge) (s : Search)
          → Memᴰ e edges
          → is_skipped adj goal min_trust limit on_path e ≡ false
          → P s
          → P (visit e s))
      → (s : Search) → P s
      → P (explore adj goal min_trust limit visit on_path edges s)
  unfolding explore
  explore-keeps P visit on_path spend [] keep s p = p
  explore-keeps P visit on_path spend (e ∷ edges) keep s p =
      let rest = explore-keeps P visit on_path spend edges (λ x t m. keep x t (tail m)) in
      let spent : Search = record s { budget = s.budget - 1 } in
      elim (Bool-cases (spent.budget == 0)) [
        | inl out ↦ rw (out, explore) (spend s p)
        | inr more ↦ elim (Bool-cases (is_skipped adj goal min_trust limit on_path e)) [
          | inl skip ↦ rw (more, skip, explore) (rest spent (spend s p))
          | inr follow ↦
              rw (more, follow, explore)
                (rest (visit e spent) (keep e spent (head refl) follow (spend s p)))
        ]
      ]

  pub arrive-cases :
      (cur : String) (on_path : List String) (hops : List Hop) (s further : Search)
      → ((h : Hop) × (rest : List Hop) × (hops ≡ h ∷ rest)
          × (cur ≡ goal)
          × (arrive adj goal min_trust limit cur on_path hops s further
              ≡ record s { found = s.found ++ found_path on_path h rest ∷ [] }))
        ⊎ (((hops ≡ []) ⊎ (cur ≢ goal))
            × (arrive adj goal min_trust limit cur on_path hops s further ≡ further))
  unfolding arrive
  arrive-cases cur on_path [] s further = inr (inl refl, refl)
  arrive-cases cur on_path (h ∷ hops) s further = elim (Bool-cases (cur == goal)) [
    | inl here ↦ inl (h, hops, refl, ground (arith, eq_iff cur goal), rw (here, arrive) refl)
    | inr away ↦ inr (inr (λ e. ground (arith, eq_iff cur goal)), rw (away, arrive) refl)
  ]

  pub Extends-append :
      (s : Search) (p : FoundPath) → Extends s (record s { found = s.found ++ p ∷ [] })
  Extends-append s p = record {
    more = omega (arith, length-append s.found (p ∷ []));
    less = omega arith;
    keeps = λ hops (q, m, e). (q, Member.append_left (p ∷ []) m, e);
  }

  arrive-Extends :
      (cur : String) (on_path : List String) (hops : List Hop) (s further : Search)
      → Extends s further
      → Extends s (arrive adj goal min_trust limit cur on_path hops s further)
  arrive-Extends cur on_path hops s further x = elim (arrive-cases cur on_path hops s further) [
    | inl (h, rest, _, _, e) ↦ rw e (Extends-append s (found_path on_path h rest))
    | inr (_, e) ↦ rw e x
  ]

  pub dfs-Extends :
      (left : ℕ) (cur : String) (on_path : List String) (hops : List Hop) (s : Search)
      → Extends s (dfs adj goal min_trust limit left cur on_path hops s)
  unfolding dfs
  dfs-Extends zero cur on_path hops s = elim (Bool-cases (is_spent adj goal min_trust limit s)) [
    | inl spent ↦ rw (spent, dfs) (Extends-refl s)
    | inr fresh ↦ rw (fresh, dfs) (arrive-Extends cur on_path hops s s (Extends-refl s))
  ]
  dfs-Extends (suc left) cur on_path hops s =
      elim (Bool-cases (is_spent adj goal min_trust limit s)) [
        | inl spent ↦ rw (spent, dfs) (Extends-refl s)
        | inr fresh ↦
            let deeper = λ (e : Edge) (t : Search).
              dfs-Extends left e.to (on_path ++ e.to ∷ []) (hops ++ hop_of cur e ∷ []) t in
            rw (fresh, dfs)
              (arrive-Extends cur on_path hops s _ (
                explore-keeps (Extends s) _ on_path (λ t x. Extends-trans s t _ x (Extends-spend t))
                  (edges_at adj cur) (λ e t m skip x. Extends-trans s t _ x (deeper e t)) s
                  (Extends-refl s)))
      ]

  -- The loop over the edges of a node, with the recursive call.
  abbrev pub from_node : ℕ → String → List String → List Hop → Search → Search
  from_node left cur on_path hops s =
      explore adj goal min_trust limit
        (λ e.
          dfs adj goal min_trust limit left e.to (on_path ++ e.to ∷ []) (hops ++ hop_of cur e ∷ []))
        on_path (edges_at adj cur) s
