-- ===== src/ContextGraph/Tests.antt =====
-- A graph of three nodes, with a duplicated edge.
use mathlib.Core.List.{Memᴰ}
use sdw_lab_benchmarks.Prelude.{
  ◌+◌, ◌*◌, IsDistinct, ◌≤◌, String, false, ◌≡◌, refl, none, some, List, [], ◌∷◌, length, All,
  IsOrdered, lookup, insert, contains, add, bump, string_eq, pair_eq, option_eq,
}
use sdw_lab_benchmarks.ContextGraph.Graph.{
  EdgeRecord, Edge, Adjacency, outward, inward, edges_at, append_edge, load_edge, load_edges, load,
}
use sdw_lab_benchmarks.ContextGraph.Paths.{find_paths, path_le}
use sdw_lab_benchmarks.ContextGraph.Sound.{IsPath}
use sdw_lab_benchmarks.ContextGraph.Mirror.{IsMirrored, load-IsMirrored}
use sdw_lab_benchmarks.ContextGraph.Counts.{entries, edges_deduped, load-IsCounted}
use sdw_lab_benchmarks.ContextGraph.Ranked.{find_paths-IsPath}

abbrev record_of : String → String → String → EdgeRecord
record_of src dst pq = record {
  src = src;
  dst = dst;
  rel = "observes";
  tier = none;
  proxy_quality = some pq;
  proxy_note = "";
}

abbrev records : List EdgeRecord
records =
    record_of "a" "b" "measured"
    ∷ record_of "a" "b" "measured"
    ∷ record_of "b" "c" "derived"
    ∷ record_of "a" "c" "artifact_cooccurrence"
    ∷ []

abbrev edge : String → String → Edge
edge to pq = record {
  to = to;
  rel = "observes";
  tier = none;
  proxy_quality = pq;
  proxy_note = "";
  dir = outward;
  scf = false;
}

abbrev adj : Adjacency
adj =
    ("a", edge "b" "measured" ∷ edge "c" "artifact_cooccurrence" ∷ [])
    ∷ ("b", record (edge "a" "measured") { dir = inward } ∷ edge "c" "derived" ∷ [])
    ∷ (
      "c",
      record (edge "b" "derived") { dir = inward }
          ∷ record (edge "a" "artifact_cooccurrence") { dir = inward }
          ∷ [],
    )
    ∷ []

load-records : (load false [] [] records).adj ≡ adj
unfolding load_edges load_edge append_edge edges_at lookup insert contains add bump
load-records = refl

abbrev route : List Edge
route = edge "b" "measured" ∷ edge "c" "derived" ∷ []

find_paths-IsPath_example :
    All (IsPath adj "c" 0 8 2 "a") (find_paths adj "a" "c" 2 0 8).paths
    × IsOrdered path_le (find_paths adj "a" "c" 2 0 8).paths
    × (length (find_paths adj "a" "c" 2 0 8).paths ≤ 8)
find_paths-IsPath_example = find_paths-IsPath adj "a" "c" 2 0 8

empty-IsMirrored : IsMirrored []
unfolding edges_at lookup
empty-IsMirrored n e m = elim m [ ]

load-IsMirrored_example : IsMirrored (load false [] [] records).adj
load-IsMirrored_example = load-IsMirrored false [] [] records empty-IsMirrored

load-IsCounted_example :
    (entries (load false [] [] records).adj ≡ 2 * edges_deduped (load false [] [] records).edge_pq)
    × (edges_deduped (load false [] [] records).edge_pq
        ≡ 0 + length (load false [] [] records).seen)
    × IsDistinct (load false [] [] records).seen
load-IsCounted_example = load-IsCounted false [] [] records refl
