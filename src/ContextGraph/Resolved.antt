-- ===== src/ContextGraph/Resolved.antt =====
-- The ids that `resolve` answers are nodes of the graph.
use sdw_lab_benchmarks.Prelude.{
  ◌≡◌, arith, String, true, false, ◌||◌, Option, none, some, List, [], ◌∷◌, ◌++◌, ◌==◌, Dict, keys,
  lookup, insert, All, All-append, All-map, All-take, All-keep, contains, contains-keys-insert,
  string_eq, eq_iff, Bool-cases, Option-cases, inl, inr,
}
use sdw_lab_benchmarks.Prelude.Text.{is_in}
use sdw_lab_benchmarks.Prelude.Edits.{to_lower, ◌⧺◌}
use sdw_lab_benchmarks.ContextGraph.Index.{
  NodeRecord, Server, ResultsDir, append_label, load_node, load_nodes, load_dir, empty_server,
  start_server, prefixes, find_prefixed, label_hits, id_hits, substring_hits, resolve_text, resolve,
}

-- Every id is among the keys.
abbrev pub IsKnown : List String → List String → Type 0
IsKnown nids ids = All (λ i. contains nids i ≡ true) ids

-- The ids under every label are.
abbrev pub IsIndexed : List String → Dict String (List String) → Type 0
IsIndexed nids index = All (λ (p : String × List String). IsKnown nids p.1) index

lookup-IsKnown :
    (nids : List String) (l : String) (index : Dict String (List String)) (ids : List String)
    → IsIndexed nids index
    → lookup l index ≡ some ids
    → IsKnown nids ids
unfolding lookup
lookup-IsKnown nids l [] ids all found = absurd cc
lookup-IsKnown nids l ((j, js) ∷ index) ids all found = elim (Bool-cases (l == j)) [
  | inl same ↦ let found' = rw (same) at found in let e : js ≡ ids = cc in rw (← e) all.0
  | inr other ↦ lookup-IsKnown nids l index ids all.1 (rw (other) at found)
]

insert-IsIndexed :
    (nids : List String) (l : String) (ids : List String) (index : Dict String (List String))
    → IsKnown nids ids
    → IsIndexed nids index
    → IsIndexed nids (insert l ids index)
unfolding insert
insert-IsIndexed nids l ids [] known all = (known, tt)
insert-IsIndexed nids l ids ((j, js) ∷ index) known all = elim (Bool-cases (l == j)) [
  | inl same ↦ rw (same) (known, all.1)
  | inr other ↦ rw (other) (all.0, insert-IsIndexed nids l ids index known all.1)
]

append_label-IsIndexed :
    (nids : List String) (l nid : String) (index : Dict String (List String))
    → contains nids nid ≡ true
    → IsIndexed nids index
    → IsIndexed nids (append_label l nid index)
unfolding append_label
append_label-IsIndexed nids l nid index h all = elim (Option-cases (lookup l index)) [
  | inl fresh ↦ rw (fresh) (insert-IsIndexed nids l (nid ∷ []) index (h, tt) all)
  | inr (ids, found) ↦
      let known = lookup-IsKnown nids l index ids all found in
      rw (found) (
        insert-IsIndexed nids l (ids ++ nid ∷ []) index
          (All-append (λ i. contains nids i ≡ true) ids (nid ∷ []) known (h, tt)) all)
]

more-IsIndexed :
    (nids nids' : List String) (index : Dict String (List String))
    → ((i : String) → contains nids i ≡ true → contains nids' i ≡ true)
    → IsIndexed nids index
    → IsIndexed nids' index
more-IsIndexed nids nids' index h all =
    All-map (λ (p : String × List String). IsKnown nids p.1)
      (λ (p : String × List String). IsKnown nids' p.1)
      (λ p. All-map (λ i. contains nids i ≡ true) (λ i. contains nids' i ≡ true) h p.1) index all

load_node-IsIndexed :
    (a : NodeRecord) (s : Server)
    → IsIndexed (keys s.nodes) s.label_index
    → IsIndexed (keys (load_node a s).nodes) (load_node a s).label_index
unfolding load_node
load_node-IsIndexed a s all = elim (Bool-cases (contains (keys s.nodes) a.id)) [
  | inl old ↦ rw (old) all
  | inr new ↦
      let nids = keys (insert a.id a s.nodes) in
      let more : (i : String) → contains (keys s.nodes) i ≡ true → contains nids i ≡ true =
        λ i h. ground (arith, contains-keys-insert a.id i a s.nodes) in
      let here : contains nids a.id ≡ true =
        ground (arith, contains-keys-insert a.id a.id a s.nodes, eq_iff a.id a.id) in
      rw (new) (
        append_label-IsIndexed nids (to_lower a.label) a.id s.label_index here
          (more-IsIndexed (keys s.nodes) nids s.label_index more all))
]

load_nodes-IsIndexed :
    (nodes : List NodeRecord) (s : Server)
    → IsIndexed (keys s.nodes) s.label_index
    → IsIndexed (keys (load_nodes nodes s).nodes) (load_nodes nodes s).label_index
unfolding load_nodes
load_nodes-IsIndexed [] s all = all
load_nodes-IsIndexed (a ∷ nodes) s all =
    load_nodes-IsIndexed nodes (load_node a s) (load_node-IsIndexed a s all)

start_server-IsIndexed :
    (results : ResultsDir) (scf_dir : Option ResultsDir)
    → IsIndexed
        (keys (start_server results scf_dir).nodes)
        (start_server results scf_dir).label_index
unfolding start_server load_dir
start_server-IsIndexed results none = load_nodes-IsIndexed results.nodes empty_server tt
start_server-IsIndexed results (some scf_dir) =
    load_nodes-IsIndexed scf_dir.nodes (load_dir false results empty_server)
      (load_nodes-IsIndexed results.nodes empty_server tt)

keys-IsKnown : (d : Dict String NodeRecord) → IsKnown (keys d) (keys d)
unfolding contains
keys-IsKnown [] = tt
keys-IsKnown ((j, a) ∷ d) = (
  ground (arith, eq_iff j j),
  All-map (λ i. contains (keys d) i ≡ true) (λ i. (i == j || contains (keys d) i) ≡ true)
      (λ i h. ground arith) (keys d) (keys-IsKnown d),
)

label_hits-IsKnown :
    (nids : List String) (ql : String) (index : Dict String (List String))
    → IsIndexed nids index
    → IsKnown nids (label_hits ql index)
unfolding label_hits
label_hits-IsKnown nids ql [] all = tt
label_hits-IsKnown nids ql ((l, ids) ∷ index) all =
    let rest = label_hits-IsKnown nids ql index all.1 in
    elim (Bool-cases (is_in ql l)) [
      | inl hit ↦
          rw (hit) (All-append (λ i. contains nids i ≡ true) ids (label_hits ql index) all.0 rest)
      | inr miss ↦ rw (miss) rest
    ]

id_hits-IsKnown :
    (nids : List String) (ql : String) (hits ids : List String)
    → IsKnown nids ids
    → IsKnown nids (id_hits ql hits ids)
unfolding id_hits
id_hits-IsKnown nids ql hits ids known =
    let kept = All-keep (λ i. contains nids i ≡ true) _ ids known in
    All-map _ (λ i. contains nids i ≡ true) (λ i h. h.0) _ kept

substring_hits-IsKnown :
    (s : Server) (ql : String)
    → IsIndexed (keys s.nodes) s.label_index
    → IsKnown (keys s.nodes) (substring_hits s ql)
unfolding substring_hits
substring_hits-IsKnown s ql all =
    let nids = keys s.nodes in
    let hits = label_hits ql s.label_index in
    let more = id_hits ql hits nids in
    All-take (λ i. contains nids i ≡ true) 50 (hits ++ more)
      (All-append (λ i. contains nids i ≡ true) hits more
        (label_hits-IsKnown nids ql s.label_index all)
        (id_hits-IsKnown nids ql hits nids (keys-IsKnown s.nodes)))

find_prefixed-known :
    (s : Server) (q nid : String) (pfxs : List String)
    → find_prefixed s q pfxs ≡ some nid
    → contains (keys s.nodes) nid ≡ true
unfolding find_prefixed
find_prefixed-known s q nid [] found = absurd cc
find_prefixed-known s q nid (pfx ∷ pfxs) found =
    elim (Bool-cases (contains (keys s.nodes) (pfx ⧺ q))) [
      | inl there ↦ let found' = rw (there) at found in let e : pfx ⧺ q ≡ nid = cc in rw (← e) there
      | inr missing ↦ find_prefixed-known s q nid pfxs (rw (missing) at found)
    ]

resolve_text-IsKnown :
    (s : Server) (q : String)
    → IsIndexed (keys s.nodes) s.label_index
    → IsKnown (keys s.nodes) (resolve_text s q)
unfolding resolve_text
resolve_text-IsKnown s q all = elim (Option-cases (find_prefixed s q prefixes)) [
  | inr (nid, found) ↦ rw (resolve_text, found) (find_prefixed-known s q nid prefixes found, tt)
  | inl no_prefix ↦ elim (Option-cases (lookup (to_lower q) s.label_index)) [
    | inr (ids, found) ↦
        rw (resolve_text, no_prefix, found)
          (lookup-IsKnown (keys s.nodes) (to_lower q) s.label_index ids all found)
    | inl no_label ↦
        rw (resolve_text, no_prefix, no_label) (substring_hits-IsKnown s (to_lower q) all)
  ]
]

-- `resolve` of a server that has loaded its directories answers ids of its nodes only.
pub resolve-IsKnown :
    (results : ResultsDir) (scf_dir : Option ResultsDir) (q : String)
    → IsKnown (keys (start_server results scf_dir).nodes) (resolve (start_server results scf_dir) q)
unfolding resolve
resolve-IsKnown results scf_dir q =
    let s = start_server results scf_dir in
    let all = start_server-IsIndexed results scf_dir in
    elim (Bool-cases (contains (keys s.nodes) q)) [
      | inl exact ↦ rw (exact) (exact, tt)
      | inr text ↦ rw (text) (resolve_text-IsKnown s q all)
    ]
