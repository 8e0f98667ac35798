-- ===== src/ContextGraph/Routes.antt =====
-- The routes that the search follows, and the edges that its loop visits.
use mathlib.Core.List.{Memᴰ, append_assoc, append-nil}
use sdw_lab_benchmarks.Prelude.{
  ℕ, ◌≤◌, String, false, ◌≡◌, refl, ap, arith, List, [], ◌∷◌, ◌++◌, map, contains, contains-append,
  nat_eq, string_eq, IsDistinct, append-IsDistinct,
}
use sdw_lab_benchmarks.ContextGraph.Graph.{Adjacency, Edge, edges_at, trust}
use sdw_lab_benchmarks.ContextGraph.Paths.{Hop, hop_of}

-- The hops of a walk along edges, the node it ends at, and the nodes on it.
abbrev pub hops_of : String → List Edge → List Hop
hops_of cur [] = []
hops_of cur (e ∷ es) = hop_of cur e ∷ hops_of e.to es

abbrev pub end_of : String → List Edge → String
end_of cur [] = cur
end_of cur (e ∷ es) = end_of e.to es

abbrev pub targets : List Edge → List String
targets = map (λ (e : Edge). e.to)

module _ (adj : Adjacency) (min_trust : ℕ) where
  -- A route from a node, where the nodes of `on_path` have been visited: each edge leaves the node
  -- before it, is trusted enough, and leads to a node not visited before.
  abbrev pub IsRoute : String → List String → List Edge → Type 0
  IsRoute cur on_path [] = Unit
  IsRoute cur on_path (e ∷ es) =
      Memᴰ e (edges_at adj cur)
      × (min_trust ≤ trust e.proxy_quality)
      × (contains on_path e.to ≡ false)
      × IsRoute e.to (on_path ++ e.to ∷ []) es

  pub IsRoute-append :
      (cur : String) (on_path : List String) (es : List Edge) (e : Edge)
      → IsRoute cur on_path es
      → IsRoute (end_of cur es) (on_path ++ targets es) (e ∷ [])
      → IsRoute cur on_path (es ++ e ∷ [])
  IsRoute-append cur on_path [] e r h = rw append-nil at h
  IsRoute-append cur on_path (e' ∷ es) e r h =
      (r.0, r.1, r.2, IsRoute-append e'.to (on_path ++ e'.to ∷ []) es e r.3 (rw append_assoc h))

  -- No node is visited twice.
  pub route-IsDistinct :
      (cur : String) (on_path : List String) (es : List Edge)
      → IsDistinct on_path
      → IsRoute cur on_path es
      → IsDistinct (on_path ++ targets es)
  route-IsDistinct cur on_path [] d r = rw append-nil d
  route-IsDistinct cur on_path (e ∷ es) d r =
      let rest =
        route-IsDistinct e.to (on_path ++ e.to ∷ []) es (append-IsDistinct on_path e.to d r.2)
          r.3 in
      rw append_assoc at rest

  -- A route does not end at a node visited before it.
  pub route_ends_elsewhere :
      (cur : String) (on_path : List String) (e : Edge) (es : List Edge)
      → IsRoute cur on_path (e ∷ es)
      → contains on_path (end_of cur (e ∷ es)) ≡ false
  unfolding contains
  route_ends_elsewhere cur on_path e [] r = r.2
  route_ends_elsewhere cur on_path e (e' ∷ es) r =
      let later = route_ends_elsewhere e.to (on_path ++ e.to ∷ []) e' es r.3 in
      ground (arith, contains-append on_path (e.to ∷ []) (end_of e'.to es))

pub hops_of-append :
    (cur : String) (es : List Edge) (e : Edge)
    → hops_of cur (es ++ e ∷ []) ≡ hops_of cur es ++ hop_of (end_of cur es) e ∷ []
hops_of-append cur [] e = refl
hops_of-append cur (e' ∷ es) e = ap (◌∷◌ (hop_of cur e')) (hops_of-append e'.to es e)

pub end_of-append : (cur : String) (es : List Edge) (e : Edge) → end_of cur (es ++ e ∷ []) ≡ e.to
end_of-append cur [] e = refl
end_of-append cur (e' ∷ es) e = end_of-append e'.to es e

pub targets-append : (es : List Edge) (e : Edge) → targets (es ++ e ∷ []) ≡ targets es ++ e.to ∷ []
targets-append [] e = refl
targets-append (e' ∷ es) e = ap (◌∷◌ e'.to) (targets-append es e)
