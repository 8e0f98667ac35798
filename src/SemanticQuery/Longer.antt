-- ===== src/SemanticQuery/Longer.antt =====
-- What `classify` says of an answer to which more cells are added.
use mathlib.Core.List.{append_assoc}
use sdw_lab_benchmarks.Prelude.{
  ℕ, String, ◌≡◌, refl, arith, Bool, true, false, ◌||◌, some, List, [], ◌∷◌, ◌++◌, any_of, all_of,
  contains-append, string_eq,
}
use sdw_lab_benchmarks.Prelude.Text.{is_in}
use sdw_lab_benchmarks.SemanticQuery.Numbers.{numbers_of, numbers_in}
use sdw_lab_benchmarks.SemanticQuery.Scoring.{
  Question, substring, uid, uidset, count, scalar, exact_scalar, order, set, other_kind, correct,
  outcome_if, classify, identity_strings,
}

any_of-append :
    {A : Type 0} (p : A → Bool) (xs ys : List A)
    → any_of p (xs ++ ys) ≡ (any_of p xs || any_of p ys)
any_of-append p [] ys = refl
any_of-append p (x ∷ xs) ys = ground (arith, any_of-append p xs ys)

numbers_of-append :
    (flat more : List String) → numbers_of (flat ++ more) ≡ numbers_of flat ++ numbers_of more
unfolding numbers_of
numbers_of-append [] more = refl
numbers_of-append (cell ∷ flat) more =
    rw
      (
        numbers_of-append flat more,
        append_assoc (numbers_in cell) (numbers_of flat) (numbers_of more),
      )
      refl

any_of-longer :
    {A : Type 0} (p : A → Bool) (xs ys : List A) → any_of p xs ≡ true → any_of p (xs ++ ys) ≡ true
any_of-longer p xs ys found = rw (any_of-append p xs ys, found) refl

all_of-weaker :
    {A : Type 0} (p q : A → Bool)
    → ((x : A) → p x ≡ true → q x ≡ true)
    → (xs : List A) → all_of p xs ≡ true
    → all_of q xs ≡ true
all_of-weaker p q weaker [] all = refl
all_of-weaker p q weaker (x ∷ xs) all = ground (arith, weaker x, all_of-weaker p q weaker xs)

-- The kinds that ask only that something stands in the answer.
abbrev pub is_recall : Question → Bool
is_recall (substring truth) = true
is_recall (uid truth) = true
is_recall (uidset truth) = false
is_recall (count truth) = false
is_recall (scalar target) = true
is_recall (exact_scalar target) = true
is_recall (order truth) = false
is_recall (set truth) = true
is_recall other_kind = false

correct_iff : (b : Bool) → some (outcome_if b) ≡ some correct → b ≡ true
correct_iff true h = refl
correct_iff false h = absurd cc

still_correct :
    (b c : Bool)
    → (b ≡ true → c ≡ true)
    → some (outcome_if b) ≡ some correct
    → some (outcome_if c) ≡ some correct
still_correct b c step h = rw (step (correct_iff b h)) refl

-- For the kinds substring, uid, scalar, exact_scalar and set, an answer that is scored correct is
-- scored correct with any cells added at its end.
pub longer_correct :
    (q : Question) (flat more : List String) (dwell_tolerance : ℕ)
    → is_recall q ≡ true
    → classify q flat dwell_tolerance ≡ some correct
    → classify q (flat ++ more) dwell_tolerance ≡ some correct
unfolding classify
longer_correct (substring truth) flat more tol r = still_correct _ _ (any_of-longer _ flat more)
longer_correct (uid truth) flat more tol r =
    still_correct _ _ (λ h. rw (contains-append flat more truth, h) refl)
longer_correct (uidset truth) flat more tol r = absurd cc
longer_correct (count truth) flat more tol r = absurd cc
longer_correct (scalar target) flat more tol r =
    rw (numbers_of-append flat more)
      (still_correct _ _ (any_of-longer _ (numbers_of flat) (numbers_of more)))
longer_correct (exact_scalar target) flat more tol r =
    rw (numbers_of-append flat more)
      (still_correct _ _ (any_of-longer _ (numbers_of flat) (numbers_of more)))
longer_correct (order truth) flat more tol r = absurd cc
longer_correct (set truth) flat more tol r =
    still_correct _ _
      (all_of-weaker _ _ (λ i. any_of-longer (is_in i) flat more) (identity_strings truth))
longer_correct other_kind flat more tol r = absurd cc
