-- ===== src/ConceptGraph/Reached.antt =====
-- The walk from a class finds its subclasses, the subclasses of those and so on, and no others.
use sdw_lab_benchmarks.Prelude.{
  ℕ, zero, suc, ◌≤◌, ◌≡◌, ◌↔◌, ◌⊎◌, inl, inr, refl, arith, String, true, not, ◌&&◌, ◌||◌, List, [],
  ◌∷◌, ◌==◌, length, lookup, contains, string_eq, eq_iff, Bool-cases, List-cases,
}
use sdw_lab_benchmarks.ConceptGraph.Ontology.{Thing}
use sdw_lab_benchmarks.ConceptGraph.Descendants.{
  Kids, kids_of, collect_kids, all_kids, Worklist, push_kids, walk, walk_fuel, start_at,
  subclass_descendants,
}
use sdw_lab_benchmarks.ConceptGraph.Kids.{
  is_subclass, contains-collect_kids, contains-all_kids, unseen, work, work-push_kids,
}

-- A class below another one by the restrictions of the graph.
pub data IsBelow (graph : List Thing) (root : String) : String → Type 0 where
  kid : (c : String) → is_subclass graph root c ≡ true → IsBelow graph root c
  below :
      (p c : String) → IsBelow graph root p → is_subclass graph p c ≡ true → IsBelow graph root c

push_kids_seen :
    (cs : List String) (w : Worklist) (d : String)
    → contains (push_kids cs w).seen d ≡ (contains cs d || contains w.seen d)
unfolding push_kids contains
push_kids_seen [] w d = refl
push_kids_seen (c ∷ cs) w d =
    let next : Worklist = record { seen = c ∷ w.seen; stack = c ∷ w.stack } in
    ground (arith, push_kids_seen cs next d, push_kids_seen cs w d, eq_iff d c)

push_kids_stack :
    (cs : List String) (w : Worklist) (d : String)
    → contains (push_kids cs w).stack d
      ≡ (contains w.stack d || contains cs d && not (contains w.seen d))
unfolding push_kids contains
push_kids_stack [] w d = ground arith
push_kids_stack (c ∷ cs) w d =
    let next : Worklist = record { seen = c ∷ w.seen; stack = c ∷ w.stack } in
    ground (arith, push_kids_stack cs next d, push_kids_stack cs w d, eq_iff d c)

module _ (kids : Kids) (root : String) where
  -- Below by the collected kids.
  data IsKidBelow : String → Type 0 where
    direct : (c : String) → contains (kids_of kids root) c ≡ true → IsKidBelow c
    deeper : (p c : String) → IsKidBelow p → contains (kids_of kids p) c ≡ true → IsKidBelow c

  -- What has been seen is below the root, and so is what is on the stack, but for the root itself.
  abbrev IsSound : Worklist → Type 0
  IsSound w =
      ((c : String) → contains w.seen c ≡ true → IsKidBelow c)
      × ((c : String) → contains w.stack c ≡ true → (c ≡ root) ⊎ IsKidBelow c)

  -- The kids of the root, and of a class that has been seen, have been seen, unless the class is
  -- still on the stack.
  abbrev IsOpen : Worklist → Type 0
  IsOpen w =
      (p c : String)
      → (p == root || contains w.seen p) ≡ true
      → contains (kids_of kids p) c ≡ true
      → (contains w.seen c || contains w.stack p) ≡ true

  -- One turn of the loop.
  abbrev turn : String → List String → Worklist → Worklist
  turn cur stack w = push_kids (kids_of kids cur) (record { seen = w.seen; stack = stack })

  kids-IsKidBelow :
      (p c : String) → (p ≡ root) ⊎ IsKidBelow p → contains (kids_of kids p) c ≡ true → IsKidBelow c
  kids-IsKidBelow p c (inl same) h = direct c (rw (← same) h)
  kids-IsKidBelow p c (inr b) h = deeper p c b h

  turn-IsSound :
      (cur : String) (stack : List String) (w : Worklist)
      → w.stack ≡ cur ∷ stack
      → IsSound w
      → IsSound (turn cur stack w)
  unfolding contains
  turn-IsSound cur stack w on_top s =
      let popped : Worklist = record { seen = w.seen; stack = stack } in
      let new : (c : String) → contains (kids_of kids cur) c ≡ true → IsKidBelow c =
        λ c. kids-IsKidBelow cur c (s.1 cur (rw (on_top) (ground (arith, eq_iff cur cur)))) in
      (
        λ c h. elim (Bool-cases (contains w.seen c)) [
          | inl old ↦ s.0 c old
          | inr fresh ↦ new c (ground (arith, push_kids_seen (kids_of kids cur) popped c))
        ],
        λ c h. elim (Bool-cases (contains stack c)) [
          | inl old ↦ s.1 c (rw (on_top) (ground arith))
          | inr fresh ↦ inr (new c (ground (arith, push_kids_stack (kids_of kids cur) popped c)))
        ],
      )

  turn-IsOpen :
      (cur : String) (stack : List String) (w : Worklist)
      → w.stack ≡ cur ∷ stack
      → IsOpen w
      → IsOpen (turn cur stack w)
  unfolding contains
  turn-IsOpen cur stack w on_top o p c reached h =
      let popped : Worklist = record { seen = w.seen; stack = stack } in
      let before : (p == root || contains w.seen p) ≡ true
          → (contains w.seen c || contains (cur ∷ stack) p) ≡ true =
        λ e. let known = o p c e h in rw (on_top) at known in
      let same : (p == cur) ≡ true → contains (kids_of kids cur) c ≡ true =
        λ e. rw (← (eq_iff p cur).0 e) h in
      ground (
        arith,
        push_kids_seen (kids_of kids cur) popped p,
        push_kids_seen (kids_of kids cur) popped c,
        push_kids_stack (kids_of kids cur) popped p,
      )

  turn-work :
      (cur : String) (stack : List String) (w : Worklist)
      → w.stack ≡ cur ∷ stack
      → suc (work kids (turn cur stack w)) ≤ work kids w
  unfolding work
  turn-work cur stack w on_top =
      let popped : Worklist = record { seen = w.seen; stack = stack } in
      let less =
        work-push_kids kids (kids_of kids cur) popped (λ c. contains-all_kids kids cur c) in
      rw (on_top) (omega (arith, less))

  -- With nothing on the stack, what is below the root has been seen.
  below_seen :
      (w : Worklist) {c : String}
      → w.stack ≡ []
      → IsOpen w
      → IsKidBelow c
      → contains w.seen c ≡ true
  unfolding contains
  below_seen w done o (direct c h) =
      let found = o root c (ground (arith, eq_iff root root)) h in
      let found' = rw (done) at found in ground arith
  below_seen w done o (deeper p c b h) =
      let seen = below_seen w done o b in
      let found = o p c (ground arith) h in let found' = rw (done) at found in ground arith

  walk_finds :
      (fuel : ℕ) (w : Worklist)
      → IsSound w
      → IsOpen w
      → work kids w ≤ fuel
      → (c : String) → (contains (walk fuel kids w) c ≡ true) ↔ IsKidBelow c
  unfolding walk
  walk_finds zero w s o enough c = elim (List-cases w.stack) [
    | inl done ↦ (s.0 c, below_seen w done o)
    | inr (cur, stack, on_top) ↦ absurd (omega (arith, turn-work cur stack w on_top))
  ]
  walk_finds (suc fuel) w s o enough c = elim (List-cases w.stack) [
    | inl done ↦ rw (done) (s.0 c, below_seen w done o)
    | inr (cur, stack, on_top) ↦
        let less = turn-work cur stack w on_top in
        rw (on_top) (
          walk_finds fuel (turn cur stack w) (turn-IsSound cur stack w on_top s)
            (turn-IsOpen cur stack w on_top o) (omega (arith, less)) c)
  ]

start-IsSound : (kids : Kids) (root : String) → IsSound kids root (start_at root)
unfolding contains
start-IsSound kids root = (λ c h. absurd cc, λ c h. inl ((eq_iff c root).0 (ground arith)))

start-IsOpen : (kids : Kids) (root : String) → IsOpen kids root (start_at root)
unfolding contains
start-IsOpen kids root p c reached h = ground arith

unseen-nil : (cs : List String) → unseen [] cs ≡ length cs
unfolding unseen contains
unseen-nil [] = refl
unseen-nil (c ∷ cs) = omega (arith, unseen-nil cs)

start_work : (kids : Kids) (root : String) → work kids (start_at root) ≤ walk_fuel kids
unfolding work walk_fuel
start_work kids root = omega (arith, unseen-nil (all_kids kids))

kids_of_graph :
    (graph : List Thing) (p c : String)
    → contains (kids_of (collect_kids graph []) p) c ≡ is_subclass graph p c
unfolding kids_of contains lookup
kids_of_graph graph p c = ground (arith, contains-collect_kids graph [] p c)

to_graph :
    (graph : List Thing) (root : String) {c : String}
    → IsKidBelow (collect_kids graph []) root c
    → IsBelow graph root c
to_graph graph root (direct c h) = kid c (rw (← kids_of_graph graph root c) h)
to_graph graph root (deeper p c b h) =
    below p c (to_graph graph root b) (rw (← kids_of_graph graph p c) h)

to_kids :
    (graph : List Thing) (root : String) {c : String}
    → IsBelow graph root c
    → IsKidBelow (collect_kids graph []) root c
to_kids graph root (kid c h) = direct c (rw (kids_of_graph graph root c) h)
to_kids graph root (below p c b h) =
    deeper p c (to_kids graph root b) (rw (kids_of_graph graph p c) h)

-- `subclass_descendants` answers exactly the classes below the root: its subclasses by the graph,
-- their subclasses and so on, also where the classes form a cycle.
pub subclass_descendants-IsBelow :
    (graph : List Thing) (root c : String)
    → (contains (subclass_descendants graph root) c ≡ true) ↔ IsBelow graph root c
unfolding subclass_descendants
subclass_descendants-IsBelow graph root c =
    let kids = collect_kids graph [] in
    let found =
      walk_finds kids root (walk_fuel kids) (start_at root) (start-IsSound kids root)
        (start-IsOpen kids root) (start_work kids root) c in
    (λ h. to_graph graph root (found.0 h), λ b. found.1 (to_kids graph root b))
