-- ===== src/ContextGraph/Complete.antt =====
-- Every route within the bounds is found, where the search is not cut short.
use mathlib.Core.List.{Memᴰ, append_assoc, append-nil}
use mathlib.Core.List.Memᴰ.{head}
use mathlib.Core.List.Memᴰ as Member
use sdw_lab_benchmarks.Prelude.{
  ℕ, zero, suc, ◌-◌, ◌≤◌, ◌<◌, String, true, false, ◌≡◌, ◌≢◌, refl, arith, List, [], ◌∷◌, ◌++◌,
  length, contains, contains-append, ◌==◌, nat_eq, string_eq, eq_iff, Bool-cases, inl, inr,
}
use sdw_lab_benchmarks.ContextGraph.Graph.{Adjacency, Edge, edges_at, trust}
use sdw_lab_benchmarks.ContextGraph.Paths.{
  Hop, hop_of, found_path, Search, is_spent, is_skipped, explore, arrive, dfs,
}
use sdw_lab_benchmarks.ContextGraph.Routes.{hops_of, end_of, IsRoute, route_ends_elsewhere}
use sdw_lab_benchmarks.ContextGraph.Found.{
  IsFound, from_node, Extends, Extends-refl, Extends-trans, Extends-spend, explore-keeps,
  arrive-cases, dfs-Extends,
}

module _ (adj : Adjacency) (goal : String) (min_trust limit : ℕ) where
  -- There is room for a further path, and budget left.
  pub record IsOpen (s : Search) : Type 0 where
    pub room : length s.found < limit
    pub budget_left : 0 < s.budget

  IsOpen-of_Extends : (s t : Search) → Extends s t → IsOpen t → IsOpen s
  IsOpen-of_Extends s t x o = record {
    room = omega (arith, x.more, o.room);
    budget_left = omega (arith, x.less, o.budget_left);
  }

  open_is_unspent : (s : Search) → IsOpen s → is_spent adj goal min_trust limit s ≡ false
  open_is_unspent s o = ground (arith, o.room, o.budget_left)

  explore-finds :
      (Q : Search → Type 0) (visit : Edge → Search → Search) (on_path : List String)
      → ((s t : Search) → Extends s t → Q s → Q t)
      → ((e : Edge) (s : Search) → Extends s (visit e s))
      → (e : Edge) → is_skipped adj goal min_trust limit on_path e ≡ false
      → ((s : Search) → IsOpen (visit e s) → Q (visit e s))
      → (edges : List Edge) → Memᴰ e edges
      → (s : Search) → IsOpen (explore adj goal min_trust limit visit on_path edges s)
      → Q (explore adj goal min_trust limit visit on_path edges s)
  unfolding explore
  explore-finds Q visit on_path mono grows e follow hit [] m s o = elim m [ ]
  explore-finds Q visit on_path mono grows e follow hit (x ∷ edges) m s o =
      let spent : Search = record s { budget = s.budget - 1 } in
      let after = λ (t : Search).
        explore-keeps adj goal min_trust limit (Extends t) visit on_path
          (λ u y. Extends-trans t u _ y (Extends-spend u)) edges
          (λ x' u _ _ y. Extends-trans t u _ y (grows x' u)) t (Extends-refl t) in
      elim (Bool-cases (spent.budget == 0)) [
        | inl out ↦
            absurd (let o' = rw (out, explore) at o in let b = o'.budget_left in ground arith)
        | inr more ↦ elim (Member.cases_cons m) [
          | inl same ↦
              let follow' = rw same at follow in
              let hit' = rw same at hit in
              let o' = rw (more, follow', explore) at o in
              rw (more, follow', explore)
                (mono (visit x spent) _ (after (visit x spent))
                  (hit' spent (IsOpen-of_Extends _ _ (after (visit x spent)) o')))
          | inr later ↦
              let o' = rw (more, explore) at o in
              rw (more, explore)
                (explore-finds Q visit on_path mono grows e follow hit edges later _ o')
        ]
      ]

  dfs-spent :
      (left : ℕ) (cur : String) (on_path : List String) (hops : List Hop) (s : Search)
      → is_spent adj goal min_trust limit s ≡ true
      → dfs adj goal min_trust limit left cur on_path hops s ≡ s
  unfolding dfs
  dfs-spent zero cur on_path hops s h = rw (h, dfs) refl
  dfs-spent (suc left) cur on_path hops s h = rw (h, dfs) refl

  -- A search that ends open began so.
  open_before :
      (left : ℕ) (cur : String) (on_path : List String) (hops : List Hop) (s : Search)
      → IsOpen (dfs adj goal min_trust limit left cur on_path hops s)
      → is_spent adj goal min_trust limit s ≡ false
  open_before left cur on_path hops s o =
      open_is_unspent s
        (IsOpen-of_Extends s _ (dfs-Extends adj goal min_trust limit left cur on_path hops s) o)

  dfs-at_goal :
      (left : ℕ) (cur : String) (on_path : List String) (h : Hop) (hops : List Hop) (s : Search)
      → is_spent adj goal min_trust limit s ≡ false
      → cur ≡ goal
      → dfs adj goal min_trust limit left cur on_path (h ∷ hops) s
        ≡ record s { found = s.found ++ found_path on_path h hops ∷ [] }
  unfolding dfs arrive
  dfs-at_goal zero cur on_path h hops s fresh e =
      let here : (cur == goal) ≡ true = (eq_iff cur goal).1 e in rw (fresh, here, dfs, arrive) refl
  dfs-at_goal (suc left) cur on_path h hops s fresh e =
      let here : (cur == goal) ≡ true = (eq_iff cur goal).1 e in rw (fresh, here, dfs, arrive) refl

  IsFound-at_goal :
      (left : ℕ) (cur : String) (on_path : List String) (h : Hop) (hops : List Hop) (s : Search)
      → cur ≡ goal
      → IsOpen (dfs adj goal min_trust limit left cur on_path (h ∷ hops) s)
      → IsFound (h ∷ hops) (dfs adj goal min_trust limit left cur on_path (h ∷ hops) s)
  IsFound-at_goal left cur on_path h hops s e o =
      rw (dfs-at_goal left cur on_path h hops s (open_before left cur on_path (h ∷ hops) s o) e) (
        found_path on_path h hops,
        Member.append_right s.found (head refl),
        unfold found_path in refl,
      )

  not_skipped :
      (on_path : List String) (e : Edge)
      → min_trust ≤ trust e.proxy_quality
      → contains on_path e.to ≡ false
      → is_skipped adj goal min_trust limit on_path e ≡ false
  not_skipped on_path e trusted new = ground arith

  dfs-from_node :
      (left : ℕ) (cur : String) (on_path : List String) (hops : List Hop) (s : Search)
      → is_spent adj goal min_trust limit s ≡ false
      → cur ≢ goal
      → dfs adj goal min_trust limit (suc left) cur on_path hops s
        ≡ from_node adj goal min_trust limit left cur on_path hops s
  unfolding dfs
  dfs-from_node left cur on_path hops s fresh away =
      elim (arrive-cases adj goal min_trust limit cur on_path hops s
        (from_node adj goal min_trust limit left cur on_path hops s)) [
          | inl (_, _, _, here, _) ↦ absurd (away here)
          | inr (_, e) ↦ rw (fresh, dfs) e
        ]

  now_on_path : (on_path : List String) (n : String) → contains (on_path ++ n ∷ []) n ≡ true
  unfolding contains
  now_on_path on_path n =
      let same = (eq_iff n n).1 refl in ground (arith, contains-append on_path (n ∷ []) n)

  some_hops : (hops : List Hop) (h : Hop) (rest : List Hop) → hops ++ h ∷ rest ≢ []
  some_hops [] h rest e = cc
  some_hops (x ∷ hops) h rest e = cc

  pub dfs_complete :
      (left : ℕ) (cur : String) (on_path : List String) (hops : List Hop) (es : List Edge)
      (s : Search)
      → IsRoute adj min_trust cur on_path es
      → contains on_path cur ≡ true
      → length es ≤ left
      → end_of cur es ≡ goal
      → hops ++ hops_of cur es ≢ []
      → IsOpen (dfs adj goal min_trust limit left cur on_path hops s)
      → IsFound (hops ++ hops_of cur es) (dfs adj goal min_trust limit left cur on_path hops s)
  unfolding contains
  dfs_complete left cur on_path [] [] s r here le end some_hop o = absurd (some_hop refl)
  dfs_complete left cur on_path (h ∷ hops) [] s r here le end some_hop o =
      rw append-nil (IsFound-at_goal left cur on_path h hops s end o)
  dfs_complete zero cur on_path hops (e ∷ es) s r here le end some_hop o =
      absurd (omega (arith, le))
  dfs_complete (suc left) cur on_path hops (e ∷ es) s r here le end some_hop o =
      let fresh = open_before (suc left) cur on_path hops s o in
      let away : cur ≢ goal =
        λ q. let elsewhere = route_ends_elsewhere adj min_trust cur on_path e es r in cc in
      let one_more = append_assoc hops (hop_of cur e ∷ []) (hops_of e.to es) in
      let step = dfs-from_node left cur on_path hops s fresh away in
      rw step (
        explore-finds (IsFound (hops ++ hop_of cur e ∷ hops_of e.to es)) _ on_path
          (λ t u x. x.keeps (hops ++ hop_of cur e ∷ hops_of e.to es))
          (λ x t.
            dfs-Extends adj goal min_trust limit left x.to (on_path ++ x.to ∷ [])
              (hops ++ hop_of cur x ∷ []) t)
          e (not_skipped on_path e r.1 r.2)
          (λ t ended. rw (← one_more) (
            dfs_complete left e.to (on_path ++ e.to ∷ []) (hops ++ hop_of cur e ∷ []) es t r.3
              (now_on_path on_path e.to) (omega (arith, le)) end
              (rw one_more (some_hops hops (hop_of cur e) (hops_of e.to es))) ended))
          (edges_at adj cur) r.0 s (rw step at o))
