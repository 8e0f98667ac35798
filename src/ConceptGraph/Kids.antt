-- ===== src/ConceptGraph/Kids.antt =====
-- The kids of a class against the graph they are collected from, and against the fuel of the walk.
use sdw_lab_benchmarks.Prelude.{
  ℕ, suc, ◌+◌, ◌≤◌, ◌≡◌, refl, arith, String, Bool, true, false, not, ◌&&◌, ◌||◌, List, [], ◌∷◌,
  ◌==◌, length, count_if, any_of, lookup, insert, lookup-insert, contains, add, contains-add,
  contains-append, string_eq, eq_iff, if◌then◌else◌, Bool-cases, inl, inr,
}
use sdw_lab_benchmarks.ConceptGraph.Ontology.{Thing, refs_of, prop_of, refs}
use sdw_lab_benchmarks.ConceptGraph.Descendants.{
  Kids, kids_of, add_kid, collect_kids, all_kids, Worklist, push_kids,
}

kids_of-insert :
    (p q : String) (cs : List String) (kids : Kids)
    → kids_of (insert p cs kids) q ≡ (if q == p then cs else kids_of kids q)
unfolding kids_of
kids_of-insert p q cs kids = ground (arith, lookup-insert p q cs kids)

contains-add_kid :
    (ps : List String) (cid : String) (kids : Kids) (p c : String)
    → contains (kids_of (add_kid ps cid kids) p) c
      ≡ (contains ps p && c == cid || contains (kids_of kids p) c)
unfolding add_kid contains
contains-add_kid [] cid kids p c = refl
contains-add_kid (q ∷ ps) cid kids p c =
    let new = add cid (kids_of kids q) in
    ground (
      arith,
      contains-add_kid ps cid (insert q new kids) p c,
      kids_of-insert q p new kids,
      contains-add cid c (kids_of kids q),
      eq_iff p q,
    )

-- A thing of the graph has the id and names the class as one that it is a subclass of.
abbrev pub is_subclass : List Thing → String → String → Bool
is_subclass graph p c =
    any_of (λ (n : Thing). contains (refs_of "rdfs:subClassOf" n) p && c == n.id) graph

pub contains-collect_kids :
    (graph : List Thing) (kids : Kids) (p c : String)
    → contains (kids_of (collect_kids graph kids) p) c
      ≡ (is_subclass graph p c || contains (kids_of kids p) c)
unfolding collect_kids contains prop_of refs
contains-collect_kids [] kids p c = refl
contains-collect_kids (n ∷ graph) kids p c =
    let ps = refs_of "rdfs:subClassOf" n in
    ground (
      arith,
      contains-collect_kids graph (add_kid ps n.id kids) p c,
      contains-add_kid ps n.id kids p c,
    )

pub contains-all_kids :
    (kids : Kids) (p c : String)
    → contains (kids_of kids p) c ≡ true
    → contains (all_kids kids) c ≡ true
unfolding kids_of lookup all_kids contains
contains-all_kids [] p c h = absurd cc
contains-all_kids ((q, cs) ∷ kids) p c h =
    ground (arith, contains-all_kids kids p c, contains-append cs (all_kids kids) c)

-- How many of the classes have not been seen.
unfoldable pub unseen : List String → List String → ℕ
unfolding contains
unseen seen cs = count_if (λ c. not (contains seen c)) cs

unseen-le : (c : String) (seen cs : List String) → unseen (c ∷ seen) cs ≤ unseen seen cs
unfolding contains unseen
unseen-le c seen [] = omega arith
unseen-le c seen (d ∷ cs) = ground (arith, unseen-le c seen cs)

unseen-seen :
    (c : String) (seen cs : List String)
    → contains cs c ≡ true
    → contains seen c ≡ false
    → suc (unseen (c ∷ seen) cs) ≤ unseen seen cs
unfolding contains unseen
unseen-seen c seen [] h new = absurd cc
unseen-seen c seen (d ∷ cs) h new =
    ground (arith, unseen-seen c seen cs, unseen-le c seen cs, eq_iff c d, eq_iff d c)

-- What is left to do: the stack and the classes not seen.
unfoldable pub work : Kids → Worklist → ℕ
unfolding unseen all_kids
work kids w = length w.stack + unseen w.seen (all_kids kids)

pub work-push_kids :
    (kids : Kids) (cs : List String) (w : Worklist)
    → ((c : String) → contains cs c ≡ true → contains (all_kids kids) c ≡ true)
    → work kids (push_kids cs w) ≤ work kids w
unfolding push_kids contains work
work-push_kids kids [] w h = omega arith
work-push_kids kids (c ∷ cs) w h =
    let next : Worklist = record { seen = c ∷ w.seen; stack = c ∷ w.stack } in
    let known = h c (ground (arith, eq_iff c c)) in
    let rest : (d : String) → contains cs d ≡ true → contains (all_kids kids) d ≡ true =
      λ d e. h d (ground (arith, e)) in
    elim (Bool-cases (contains w.seen c)) [
      | inl old ↦ rw (push_kids, old) (work-push_kids kids cs w rest)
      | inr new ↦
          let less = unseen-seen c w.seen (all_kids kids) known new in
          rw (push_kids, new) (omega (arith, work-push_kids kids cs next rest, less))
    ]
