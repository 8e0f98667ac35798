-- ===== src/ContextGraph/Sound.antt =====
-- What a path of the search is.
use mathlib.Core.List.{Memᴰ}
use mathlib.Core.List.Memᴰ.{head, tail}
use mathlib.Core.List.Memᴰ as Member
use sdw_lab_benchmarks.Prelude.{
  ℕ, zero, suc, ◌+◌, ◌≤◌, String, false, ◌≡◌, refl, sym, ◌∙◌, arith, List, [], ◌∷◌, ◌++◌, length,
  contains, All, All-append, ltb, nat_eq, string_eq, if◌then◌else◌, Bool-cases, inl, inr,
  IsDistinct, length-append,
}
use sdw_lab_benchmarks.ContextGraph.Graph.{Adjacency, Edge, edges_at, trust}
use sdw_lab_benchmarks.ContextGraph.Paths.{
  Hop, hop_of, FoundPath, found_path, weakest_of, Search, is_spent, is_skipped, arrive, dfs,
  search_from, expansion_budget,
}
use sdw_lab_benchmarks.ContextGraph.Routes.{
  hops_of, end_of, targets, IsRoute, IsRoute-append, route-IsDistinct, hops_of-append,
  end_of-append, targets-append,
}
use sdw_lab_benchmarks.ContextGraph.Found.{from_node, explore-keeps, arrive-cases}

weakest_of-le : (h : Hop) (hops : List Hop) → (weakest_of h hops).trust ≤ h.trust
unfolding weakest_of
weakest_of-le h [] = omega arith
weakest_of-le h (x ∷ hops) =
    ground (arith, weakest_of-le (if ltb x.trust h.trust then x else h) hops)

weakest_of-least :
    (h : Hop) (hops : List Hop) → All (λ (x : Hop). (weakest_of h hops).trust ≤ x.trust) hops
unfolding weakest_of
weakest_of-least h [] = tt
weakest_of-least h (x ∷ hops) =
    let least = if ltb x.trust h.trust then x else h in
    (ground (arith, weakest_of-le least hops), weakest_of-least least hops)

mem-weakest_of : (h : Hop) (hops : List Hop) → Memᴰ (weakest_of h hops) (h ∷ hops)
unfolding weakest_of
mem-weakest_of h [] = head refl
mem-weakest_of h (x ∷ hops) = elim (Bool-cases (ltb x.trust h.trust)) [
  | inl less ↦ rw (less, weakest_of) (tail (mem-weakest_of x hops))
  | inr more ↦
      rw (more, weakest_of)
        (elim (Member.cases_cons (mem-weakest_of h hops)) [
          | inl e ↦ head e
          | inr m ↦ tail (tail m)
        ])
]

module _ (adj : Adjacency) (goal : String) (min_trust limit max_hops : ℕ) (start : String) where
  -- The path is a route from the start to the goal within the bound on hops, no node occurs twice
  -- on it, and its trust is that of its weakest hop.
  pub record IsPath (p : FoundPath) : Type 0 where
    pub edges : List Edge
    pub route : IsRoute adj min_trust start (start ∷ []) edges
    pub hops : p.hops ≡ hops_of start edges
    pub ends : end_of start edges ≡ goal
    pub short : length edges ≤ max_hops
    pub chain : p.node_chain ≡ start ∷ targets edges
    pub distinct : IsDistinct p.node_chain
    pub least : All (λ (h : Hop). p.path_trust ≤ h.trust) p.hops
    pub weakest : Memᴰ p.weakest_hop p.hops
    pub path_trust : p.path_trust ≡ p.weakest_hop.trust

  -- What the search has done on the way to a node.
  record IsOnWay (left : ℕ) (cur : String) (on_path : List String) (hops : List Hop) : Type 0 where
    edges : List Edge
    route : IsRoute adj min_trust start (start ∷ []) edges
    walked : hops ≡ hops_of start edges
    standing : cur ≡ end_of start edges
    chain : on_path ≡ start ∷ targets edges
    short : length edges + left ≤ max_hops

  abbrev Good : Search → Type 0
  Good s = All IsPath s.found × (length s.found ≤ limit)

  found_path-IsPath :
      (left : ℕ) (cur : String) (on_path : List String) (h : Hop) (hops : List Hop)
      → cur ≡ goal
      → IsOnWay left cur on_path (h ∷ hops)
      → IsPath (found_path on_path h hops)
  unfolding found_path contains
  found_path-IsPath left cur on_path h hops here w = record {
    edges = w.edges;
    route = w.route;
    hops = w.walked;
    ends = sym w.standing ∙ here;
    short = omega (arith, w.short);
    chain = w.chain;
    distinct =
        rw w.chain (route-IsDistinct adj min_trust start (start ∷ []) w.edges (refl, tt) w.route);
    least = (weakest_of-le h hops, weakest_of-least h hops);
    weakest = mem-weakest_of h hops;
    path_trust = refl;
  }

  arrived-Good :
      (left : ℕ) (cur : String) (on_path : List String) (h : Hop) (hops : List Hop) (s : Search)
      → is_spent adj goal min_trust limit s ≡ false
      → cur ≡ goal
      → IsOnWay left cur on_path (h ∷ hops)
      → Good s
      → Good (record s { found = s.found ++ found_path on_path h hops ∷ [] })
  arrived-Good left cur on_path h hops s fresh here w good = (
    All-append IsPath s.found (found_path on_path h hops ∷ []) good.0
        (found_path-IsPath left cur on_path h hops here w, tt),
    ground (arith, length-append s.found (found_path on_path h hops ∷ [])),
  )

  arrive-Good :
      (left : ℕ) (cur : String) (on_path : List String) (hops : List Hop) (s further : Search)
      → is_spent adj goal min_trust limit s ≡ false
      → IsOnWay left cur on_path hops
      → Good s
      → Good further
      → Good (arrive adj goal min_trust limit cur on_path hops s further)
  arrive-Good left cur on_path hops s further fresh w good good' =
      elim (arrive-cases adj goal min_trust limit cur on_path hops s further) [
        | inl (h, rest, same, here, e) ↦
            rw e (arrived-Good left cur on_path h rest s fresh here (rw same at w) good)
        | inr (_, e) ↦ rw e good'
      ]

  onward :
      (left : ℕ) (cur : String) (on_path : List String) (hops : List Hop) (e : Edge)
      → Memᴰ e (edges_at adj cur)
      → is_skipped adj goal min_trust limit on_path e ≡ false
      → IsOnWay (suc left) cur on_path hops
      → IsOnWay left e.to (on_path ++ e.to ∷ []) (hops ++ hop_of cur e ∷ [])
  onward left cur on_path hops e m follow w =
      let trusted : min_trust ≤ trust e.proxy_quality = ground arith in
      let new : contains on_path e.to ≡ false = ground arith in
      record {
        edges = w.edges ++ e ∷ [];
        route =
            IsRoute-append adj min_trust start (start ∷ []) w.edges e w.route
              (rw w.standing at m, trusted, rw w.chain at new, tt);
        walked = rw (w.walked, w.standing, hops_of-append) refl;
        standing = rw end_of-append refl;
        chain = rw (w.chain, targets-append) refl;
        short = omega (arith, w.short, length-append w.edges (e ∷ []));
      }

  dfs-Good :
      (left : ℕ) (cur : String) (on_path : List String) (hops : List Hop) (s : Search)
      → IsOnWay left cur on_path hops
      → Good s
      → Good (dfs adj goal min_trust limit left cur on_path hops s)
  unfolding dfs
  dfs-Good zero cur on_path hops s w good =
      elim (Bool-cases (is_spent adj goal min_trust limit s)) [
        | inl spent ↦ rw (spent, dfs) good
        | inr fresh ↦ rw (fresh, dfs) (arrive-Good zero cur on_path hops s s fresh w good good)
      ]
  dfs-Good (suc left) cur on_path hops s w good =
      elim (Bool-cases (is_spent adj goal min_trust limit s)) [
        | inl spent ↦ rw (spent, dfs) good
        | inr fresh ↦
            rw (fresh, dfs)
              (arrive-Good (suc left) cur on_path hops s
                (from_node adj goal min_trust limit left cur on_path hops s) fresh w good
                (explore-keeps adj goal min_trust limit Good
                  (λ e.
                    dfs adj goal min_trust limit left e.to (on_path ++ e.to ∷ [])
                      (hops ++ hop_of cur e ∷ []))
                  on_path (λ t g. g) (edges_at adj cur)
                  (λ e t m follow g.
                    dfs-Good left e.to (on_path ++ e.to ∷ []) (hops ++ hop_of cur e ∷ []) t
                      (onward left cur on_path hops e m follow w) g)
                  s good))
      ]

  -- Every path that the search finds is a route from the start to the goal within the bound on hops
  -- over edges that are trusted enough, without repeated nodes, and its trust is that of its weakest
  -- hop; no more than `limit` paths are found.
  pub search_from-IsPath :
      All IsPath (search_from adj goal min_trust limit start max_hops).found
      × (length (search_from adj goal min_trust limit start max_hops).found ≤ limit)
  unfolding search_from
  search_from-IsPath =
      dfs-Good max_hops start (start ∷ []) [] (record { found = []; budget = expansion_budget })
        (record {
          edges = [];
          route = tt;
          walked = refl;
          standing = refl;
          chain = refl;
          short = omega arith;
        })
        (tt, omega arith)
