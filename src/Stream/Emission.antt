-- ===== src/Stream/Emission.antt =====
-- Which keys the alerts file holds after the loop of a tick.
use sdw_lab_benchmarks.Prelude.{
  ℕ, zero, suc, true, ◌||◌, ◌≡◌, arith, List, [], ◌∷◌, ◌++◌, map, take, Eq, contains, add,
  contains-add, contains-append, triple_eq, string_eq, nat_eq, Bool-cases, inl, inr, ◌==◌,
}
use sdw_lab_benchmarks.Stream.Corpus.{Key}
use sdw_lab_benchmarks.Stream.Batch.{Group, group_key, Alert, Emitted, emit_group, emit}
use sdw_lab_benchmarks.Stream.Once.{alert_keys, alert_keys-emit_group}

-- The keys seen are those of the alerts.
abbrev pub SameKeys : List Alert → List Key → Type 0
SameKeys out seen = (k : Key) → contains seen k ≡ contains (alert_keys out) k

abbrev pub group_keys : List Group → List Key
group_keys = map group_key

seen_is_old {ℓ} :
    {A : Type ℓ} ⦃e : Eq A⦄ (xs : List A) (a k : A)
    → contains xs a ≡ true
    → contains xs k ≡ (contains xs k || e.beq k a)
seen_is_old ⦃e⦄ xs a k h = ground (arith, e.beq_iff k a)

contains-concat {ℓ} :
    {A : Type ℓ} ⦃e : Eq A⦄ (xs : List A) (a k : A)
    → contains (xs ++ a ∷ []) k ≡ (contains xs k || e.beq k a)
unfolding contains
contains-concat ⦃e⦄ xs a k = ground (arith, contains-append xs (a ∷ []) k)

add-concat {ℓ} :
    {A : Type ℓ} ⦃e : Eq A⦄ (seen xs : List A) (a k : A)
    → contains seen k ≡ contains xs k
    → contains (add a seen) k ≡ contains (xs ++ a ∷ []) k
add-concat ⦃e⦄ seen xs a k h = ground (arith, contains-add a k seen, contains-concat xs a k)

module _ (clock : ℕ → ℕ) where
  emit_group-SameKeys :
      (s : Emitted) (g : Group)
      → SameKeys s.out_file s.seen_keys
      → SameKeys (emit_group clock s g).out_file (emit_group clock s g).seen_keys
  unfolding emit_group
  emit_group-SameKeys s g same k = elim (Bool-cases (contains s.seen_keys (group_key g))) [
    | inl old ↦ rw (old, emit_group) (same k)
    | inr new ↦
        rw (alert_keys-emit_group clock s g new, new, emit_group)
          (add-concat s.seen_keys (alert_keys s.out_file) (group_key g) k (same k))
  ]

  contains-emit_group :
      (s : Emitted) (g : Group) (k : Key)
      → SameKeys s.out_file s.seen_keys
      → contains (alert_keys (emit_group clock s g).out_file) k
        ≡ (contains (alert_keys s.out_file) k || k == group_key g)
  contains-emit_group s g k same = elim (Bool-cases (contains s.seen_keys (group_key g))) [
    | inl old ↦
        let stays : (emit_group clock s g).out_file ≡ s.out_file = (unfold emit_group in rw old) in
        rw stays
          (seen_is_old (alert_keys s.out_file) (group_key g) k (rw (same (group_key g)) at old))
    | inr new ↦
        rw (alert_keys-emit_group clock s g new)
          (contains-concat (alert_keys s.out_file) (group_key g) k)
  ]

  pub emit-SameKeys :
      (s : Emitted) (groups : List Group)
      → SameKeys s.out_file s.seen_keys
      → SameKeys (emit clock s groups).out_file (emit clock s groups).seen_keys
  unfolding emit
  emit-SameKeys s [] same = same
  emit-SameKeys s (g ∷ groups) same =
      emit-SameKeys (emit_group clock s g) groups (emit_group-SameKeys s g same)

  -- The loop adds exactly the keys of the groups.
  pub contains-emit :
      (s : Emitted) (groups : List Group) (k : Key)
      → SameKeys s.out_file s.seen_keys
      → contains (alert_keys (emit clock s groups).out_file) k
        ≡ (contains (alert_keys s.out_file) k || contains (group_keys groups) k)
  unfolding emit contains
  contains-emit s [] k same = ground arith
  contains-emit s (g ∷ groups) k same =
      let rest = contains-emit (emit_group clock s g) groups k (emit_group-SameKeys s g same) in
      let one = contains-emit_group s g k same in ground arith

pub contains-take :
    (groups : List Group) (n : ℕ) (k : Key)
    → contains (group_keys (take n groups)) k ≡ true
    → contains (group_keys groups) k ≡ true
unfolding contains
contains-take groups zero k h = absurd (ground arith)
contains-take [] (suc n) k h = h
contains-take (g ∷ groups) (suc n) k h = ground (arith, contains-take groups n k)
