-- ===== src/ContextGraph/ToolTests.antt =====
-- A server of two directories, and its tools.
use sdw_lab_benchmarks.Prelude.{
  ◌≡◌, ◌≤◌, ◌+◌, refl, none, some, String, [], ◌∷◌, length, keys, count_if, add, All, IsOrdered,
}
use sdw_lab_benchmarks.ContextGraph.Graph.{EdgeRecord, trust_table, edges_at, load_edges}
use sdw_lab_benchmarks.ContextGraph.Index.{NodeRecord, ResultsDir, Server, start_server, resolve}
use sdw_lab_benchmarks.ContextGraph.Tools.{
  EdgeView, both, is_wanted, view_le, neighbors_of, proxy_notes,
}
use sdw_lab_benchmarks.ContextGraph.Coverage.{trust_le, coverage_of}
use sdw_lab_benchmarks.ContextGraph.Resolved.{IsKnown, resolve-IsKnown}
use sdw_lab_benchmarks.ContextGraph.Answers.{
  neighbors_ranked, IsTrusted, is_covering, coverage_ranked,
}

abbrev named : String → String → String → NodeRecord
named id ntype label = record { id = id; ntype = some ntype; label = label; attrs = [] }

abbrev counters : String → String → String → EdgeRecord
counters src rel pq = record {
  src = src;
  dst = "attack:T1059";
  rel = rel;
  tier = some "A";
  proxy_quality = some pq;
  proxy_note = "";
}

abbrev results : ResultsDir
results = record {
  nodes =
      named "attack:T1059" "attack" "Command Interpreter"
      ∷ named "d3f:FileAnalysis" "defense" "File Analysis"
      ∷ named "d3f:M1042" "attack_mitigation" "Disable Feature"
      ∷ [];
  edges =
      counters "d3f:FileAnalysis" "may_counter" "artifact_cooccurrence"
      ∷ counters "d3f:M1042" "curated_mitigation" "curated"
      ∷ [];
}

abbrev server : Server
server = start_server results none

resolve_by_prefix : resolve server "T1059" ≡ "attack:T1059" ∷ []
unfolding resolve start_server
resolve_by_prefix = refl

resolve_by_label : resolve server "FILE analysis" ≡ "d3f:FileAnalysis" ∷ []
unfolding resolve start_server
resolve_by_label = refl

resolve_by_part : resolve server "a" ≡ "attack:T1059" ∷ "d3f:FileAnalysis" ∷ "d3f:M1042" ∷ []
unfolding resolve start_server
resolve_by_part = refl

-- Every quality that has a trust has a note, so `legend` finds them all.
notes_complete : keys proxy_notes ≡ keys trust_table
notes_complete = refl

resolve-IsKnown_example :
    IsKnown (keys (start_server results none).nodes) (resolve (start_server results none) "T1059")
resolve-IsKnown_example = resolve-IsKnown results none "T1059"

neighbors_ranked_example :
    All
      (λ (v : EdgeView). 50 ≤ v.trust_value)
      (neighbors_of server both "" 50 5 "attack:T1059").found
    × IsOrdered view_le (neighbors_of server both "" 50 5 "attack:T1059").found
    × (length (neighbors_of server both "" 50 5 "attack:T1059").found ≤ 5)
    × ((neighbors_of server both "" 50 5 "attack:T1059").neighbor_count
        ≡ count_if (is_wanted both "" 50) (edges_at server.adj "attack:T1059"))
neighbors_ranked_example = neighbors_ranked server both "" 50 5 "attack:T1059"

one_trusted : (neighbors_of server both "" 50 5 "attack:T1059").neighbor_count ≡ 1
unfolding neighbors_of start_server load_edges add
one_trusted = refl

coverage_ranked_example :
    IsTrusted 0 (coverage_of server 0 40 "attack:T1059").defenses_may_counter.items
    × IsTrusted 0 (coverage_of server 0 40 "attack:T1059").curated_mitigations.items
    × IsTrusted 0 (coverage_of server 0 40 "attack:T1059").tactics
    × IsOrdered trust_le (coverage_of server 0 40 "attack:T1059").defenses_may_counter.items
    × (length (coverage_of server 0 40 "attack:T1059").defenses_may_counter.items ≤ 40)
    × (length (coverage_of server 0 40 "attack:T1059").curated_mitigations.items ≤ 40)
    × ((coverage_of server 0 40 "attack:T1059").defenses_may_counter.count
          + ((coverage_of server 0 40 "attack:T1059").curated_mitigations.count
              + length (coverage_of server 0 40 "attack:T1059").tactics)
        ≡ count_if (is_covering server 0) (edges_at server.adj "attack:T1059"))
coverage_ranked_example = coverage_ranked server 0 40 "attack:T1059"
