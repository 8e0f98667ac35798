-- ===== src/ContextGraph/Paths.antt =====
-- The search for paths, security-context-graph/scg_mcp.py (`paths`), after `resolve` has given it a
-- start and a goal. The labels of a hop are left out. The budget stops at 0 where the source's
-- counter may fall below; both are read only by `<= 0`.
use sdw_lab_benchmarks.Prelude.{
  ℕ, zero, suc, ◌-◌, String, Bool, true, false, ◌||◌, List, [], ◌∷◌, ◌++◌, length, take, contains,
  any_of, leb, ltb, sort_by, ◌==◌, nat_eq, string_eq, if◌then◌else◌,
}
use sdw_lab_benchmarks.ContextGraph.Graph.{Adjacency, Edge, Direction, edges_at, trust}

pub record Hop : Type 0 where
  pub source : String
  pub to : String
  pub rel : String
  pub dir : Direction
  pub proxy_quality : String
  pub trust : ℕ
  pub weak : Bool

abbrev pub hop_of : String → Edge → Hop
hop_of cur e =
    let t = trust e.proxy_quality in
    record {
      source = cur;
      to = e.to;
      rel = e.rel;
      dir = e.dir;
      proxy_quality = e.proxy_quality;
      trust = t;
      weak = leb t 25;
    }

pub record FoundPath : Type 0 where
  pub hops : List Hop
  pub length : ℕ
  pub path_trust : ℕ
  pub weakest_hop : Hop
  pub crosses_inference : Bool
  pub node_chain : List String

-- `min(hops, key=trust)`, the first of the least, where `h` is the first hop
unfoldable pub weakest_of : Hop → List Hop → Hop
weakest_of h [] = h
weakest_of h (h' ∷ hops) = weakest_of (if ltb h'.trust h.trust then h' else h) hops

-- `found`, and what is left of the budget of expansions
pub record Search : Type 0 where
  pub found : List FoundPath
  pub budget : ℕ

unfoldable pub found_path : List String → Hop → List Hop → FoundPath
unfolding weakest_of
found_path on_path h hops =
    let weakest = weakest_of h hops in
    record {
      hops = h ∷ hops;
      length = suc (length hops);
      path_trust = weakest.trust;
      weakest_hop = weakest;
      crosses_inference = any_of (λ (x : Hop). x.weak) (h ∷ hops);
      node_chain = on_path;
    }

abbrev pub expansion_budget : ℕ
expansion_budget = 250000

module _ (adj : Adjacency) (goal : String) (min_trust limit : ℕ) where
  -- `len(found) >= limit or budget[0] <= 0`
  abbrev pub is_spent : Search → Bool
  is_spent s = leb limit (length s.found) || s.budget == 0

  -- The edge is not followed.
  abbrev pub is_skipped : List String → Edge → Bool
  is_skipped on_path e = contains on_path e.to || ltb (trust e.proxy_quality) min_trust

  -- The loop over the edges of a node; `visit` is the recursive call.
  unfoldable pub explore : (Edge → Search → Search) → List String → List Edge → Search → Search
  explore visit on_path [] s = s
  explore visit on_path (e ∷ edges) s =
      let spent = record s { budget = s.budget - 1 } in
      let visited = if is_skipped on_path e then spent else visit e spent in
      let rest = explore visit on_path edges visited in if spent.budget == 0 then spent else rest

  -- The test for the goal and its `append`; `further` is what follows where it fails.
  unfoldable pub arrive : String → List String → List Hop → Search → Search → Search
  unfolding found_path
  arrive cur on_path [] s further = further
  arrive cur on_path (h ∷ hops) s further =
      if cur == goal
      then record s { found = s.found ++ found_path on_path h hops ∷ [] }
      else further

  -- `left` is `max_hops - len(hops)`.
  unfoldable pub dfs : ℕ → String → List String → List Hop → Search → Search
  unfolding explore arrive
  dfs zero cur on_path hops s = if is_spent s then s else arrive cur on_path hops s s
  dfs (suc left) cur on_path hops s =
      let further =
        explore (λ e. dfs left e.to (on_path ++ e.to ∷ []) (hops ++ hop_of cur e ∷ [])) on_path
          (edges_at adj cur) s in
      if is_spent s then s else arrive cur on_path hops s further

  unfoldable pub search_from : String → ℕ → Search
  unfolding dfs
  search_from start max_hops =
      dfs max_hops start (start ∷ []) [] (record { found = []; budget = expansion_budget })

-- `max(1, min(max_hops, 6))`
abbrev pub clamp_hops : ℕ → ℕ
clamp_hops n = let capped = (if ltb 6 n then 6 else n) in if ltb capped 1 then 1 else capped

-- the order of the key `(-path_trust, length)`
abbrev pub path_le : FoundPath → FoundPath → Bool
path_le p q =
    if ltb q.path_trust p.path_trust
    then true
    else if ltb p.path_trust q.path_trust
    then false
    else leb p.length q.length

pub record Answer : Type 0 where
  pub path_count : ℕ
  pub paths : List FoundPath
  pub truncated : Bool

unfoldable pub find_paths : Adjacency → String → String → ℕ → ℕ → ℕ → Answer
unfolding search_from
find_paths adj start goal max_hops min_trust limit =
    let s = search_from adj goal min_trust limit start (clamp_hops max_hops) in
    record {
      path_count = length s.found;
      paths = take limit (sort_by path_le s.found);
      truncated = s.budget == 0;
    }
