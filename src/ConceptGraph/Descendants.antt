-- ===== src/ConceptGraph/Descendants.antt =====
-- The transitive subclasses of a class, security-context-graph/scg.py (`subclass_descendants`,
-- `digital_artifact_leaves`). A set is popped, and looped over, in the order of its list.
use sdw_lab_benchmarks.Prelude.{
  ℕ, zero, suc, String, Bool, not, none, some, List, [], ◌∷◌, ◌++◌, Dict, length, any_of, keep,
  lookup, insert, contains, add, string_eq, if◌then◌else◌,
}
use sdw_lab_benchmarks.ConceptGraph.Ontology.{Thing, refs_of, prop_of, refs}

abbrev pub Kids : Type 0
Kids = Dict String (List String)

-- `kids[p]` of a `defaultdict(set)`
unfoldable pub kids_of : Kids → String → List String
unfolding lookup
kids_of kids p = elim (lookup p kids) [ none ↦ [] | some cs ↦ cs ]

-- `for p in ...: kids[p].add(cid)`
unfoldable pub add_kid : List String → String → Kids → Kids
unfolding kids_of insert add
add_kid [] cid kids = kids
add_kid (p ∷ ps) cid kids = add_kid ps cid (insert p (add cid (kids_of kids p)) kids)

-- The loop over the graph.
unfoldable pub collect_kids : List Thing → Kids → Kids
unfolding add_kid prop_of refs
collect_kids [] kids = kids
collect_kids (n ∷ ns) kids = collect_kids ns (add_kid (refs_of "rdfs:subClassOf" n) n.id kids)

pub record Worklist : Type 0 where
  pub seen : List String
  pub stack : List String

-- `for c in kids[cur]: if c not in seen: seen.add(c); stack.append(c)`, where the top of the stack
-- is the head of its list
unfoldable pub push_kids : List String → Worklist → Worklist
unfolding contains
push_kids [] w = w
push_kids (c ∷ cs) w =
    push_kids cs
      (if contains w.seen c then w else record { seen = c ∷ w.seen; stack = c ∷ w.stack })

-- `while stack`, for `fuel` turns at most
unfoldable pub walk : ℕ → Kids → Worklist → List String
unfolding push_kids kids_of
walk zero kids w = w.seen
walk (suc fuel) kids w = elim w.stack [
  | [] ↦ w.seen
  | cur ∷ stack ↦
      walk fuel kids (push_kids (kids_of kids cur) (record { seen = w.seen; stack = stack }))
]

-- Every class that is a kid of some class.
unfoldable pub all_kids : Kids → List String
all_kids [] = []
all_kids ((p, cs) ∷ kids) = cs ++ all_kids kids

-- A class is pushed once at most, the root once more.
unfoldable pub walk_fuel : Kids → ℕ
unfolding all_kids
walk_fuel kids = suc (length (all_kids kids))

abbrev pub start_at : String → Worklist
start_at root = record { seen = []; stack = root ∷ [] }

unfoldable pub subclass_descendants : List Thing → String → List String
unfolding walk walk_fuel collect_kids
subclass_descendants graph root =
    let kids = collect_kids graph [] in walk (walk_fuel kids) kids (start_at root)

-- `kids[c] & desc` is not empty.
abbrev pub has_kid_in : Kids → List String → String → Bool
has_kid_in kids desc c = any_of (contains desc) (kids_of kids c)

-- `digital_artifact_leaves`
unfoldable pub leaves_of : Kids → List String → List String
unfolding kids_of contains
leaves_of kids desc = keep (λ c. not (has_kid_in kids desc c)) desc
