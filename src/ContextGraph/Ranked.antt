-- ===== src/ContextGraph/Ranked.antt =====
-- The answer of `paths`.
use sdw_lab_benchmarks.Prelude.{
  ℕ, ◌≤◌, String, true, false, ◌≡◌, arith, List, length, All, sort_by, nat_eq, string_eq,
}
use sdw_lab_benchmarks.ContextGraph.Graph.{Adjacency}
use sdw_lab_benchmarks.ContextGraph.Paths.{FoundPath, search_from}
use sdw_lab_benchmarks.Prelude.{take-all, IsOrdered, All-sort_by, length-sort_by, sort_by-IsOrdered}
use sdw_lab_benchmarks.ContextGraph.Paths.{clamp_hops, path_le, find_paths}
use sdw_lab_benchmarks.ContextGraph.Sound.{IsPath, search_from-IsPath}

path_le-total : (p q : FoundPath) → path_le p q ≡ false → path_le q p ≡ true
path_le-total p q h = ground arith

path_le_trans : (p q r : FoundPath) → path_le p q ≡ true → path_le q r ≡ true → path_le p r ≡ true
path_le_trans p q r h k = ground arith

module _ (adj : Adjacency) (start goal : String) (max_hops min_trust limit : ℕ) where
  paths-sorted :
      (find_paths adj start goal max_hops min_trust limit).paths
      ≡ sort_by path_le (search_from adj goal min_trust limit start (clamp_hops max_hops)).found
  unfolding find_paths
  paths-sorted =
      let found = (search_from adj goal min_trust limit start (clamp_hops max_hops)).found in
      let few = (search_from-IsPath adj goal min_trust limit (clamp_hops max_hops) start).1 in
      take-all limit (sort_by path_le found) (rw length-sort_by few)

  -- Every path of an answer is a route from the start to the goal of at most `max_hops` hops (1 to
  -- 6) over edges that are trusted enough, without repeated nodes, and its trust is that of its
  -- weakest hop; the paths are ranked by trust, then length, and are no more than `limit`.
  pub find_paths-IsPath :
      All
        (IsPath adj goal min_trust limit (clamp_hops max_hops) start)
        (find_paths adj start goal max_hops min_trust limit).paths
      × IsOrdered path_le (find_paths adj start goal max_hops min_trust limit).paths
      × (length (find_paths adj start goal max_hops min_trust limit).paths ≤ limit)
  find_paths-IsPath =
      let found = (search_from adj goal min_trust limit start (clamp_hops max_hops)).found in
      let (sound, few) = search_from-IsPath adj goal min_trust limit (clamp_hops max_hops) start in
      rw paths-sorted (
        All-sort_by path_le (IsPath adj goal min_trust limit (clamp_hops max_hops) start) found
            sound,
        sort_by-IsOrdered path_le path_le-total path_le_trans found,
        rw length-sort_by few,
      )
