-- ===== src/Prelude/Sorted.antt =====
-- A sorted list holds what the list held, in order.
use Prim.Native.Nat.{ℕ, zero, suc, ◌≤◌}
use mathlib.Core.Path.{◌≡◌, refl, ap}
use mathlib.Core.Logic.{inl, inr}
use mathlib.Core.Bool.{Bool, true, false}
use mathlib.Core.List.{List, [], ◌∷◌, Memᴰ}
use mathlib.Core.List.Memᴰ.{head, tail}
use mathlib.Core.List.Memᴰ as Member
use native.Mathlib.Omega.{arith}
use sdw_lab_benchmarks.Prelude.Tests.{Bool-cases}
use sdw_lab_benchmarks.Prelude.Lists.{length, take, All, All-map, All-take}
use sdw_lab_benchmarks.Prelude.Sorting.{insert_sorted, sort_by}

module _ {ℓ} {A : Type ℓ} where
  pub take-all : (n : ℕ) (xs : List A) → length xs ≤ n → take n xs ≡ xs
  take-all zero [] h = refl
  take-all zero (x ∷ xs) h = absurd (omega (arith, h))
  take-all (suc n) [] h = refl
  take-all (suc n) (x ∷ xs) h = ap (◌∷◌ x) (take-all n xs (omega (arith, h)))

  -- Each element stands in order with all after it.
  abbrev pub IsOrdered : (A → A → Bool) → List A → Type ℓ
  IsOrdered le [] = Unit
  IsOrdered le (x ∷ xs) = All (λ y. le x y ≡ true) xs × IsOrdered le xs

  pub take-IsOrdered :
      (le : A → A → Bool) (n : ℕ) (xs : List A) → IsOrdered le xs → IsOrdered le (take n xs)
  take-IsOrdered le zero xs o = tt
  take-IsOrdered le (suc n) [] o = tt
  take-IsOrdered le (suc n) (x ∷ xs) o =
      (All-take (λ y. le x y ≡ true) n xs o.0, take-IsOrdered le n xs o.1)

module _ {ℓ} {A : Type ℓ} (le : A → A → Bool) where
  pub mem-insert_sorted : (a x : A) (xs : List A) → Memᴰ a (x ∷ xs) → Memᴰ a (insert_sorted le x xs)
  unfolding insert_sorted
  mem-insert_sorted a x [] m = m
  mem-insert_sorted a x (y ∷ ys) m = elim (Bool-cases (le x y)) [
    | inl before ↦ rw (before, insert_sorted) m
    | inr after ↦
        rw (after, insert_sorted)
          (elim (Member.cases_cons m) [
            | inl e ↦ tail (mem-insert_sorted a x ys (head e))
            | inr m' ↦ elim (Member.cases_cons m') [
              | inl e ↦ head e
              | inr m'' ↦ tail (mem-insert_sorted a x ys (tail m''))
            ]
          ])
  ]

  pub mem-sort_by : (a : A) (xs : List A) → Memᴰ a xs → Memᴰ a (sort_by le xs)
  unfolding sort_by
  mem-sort_by a [] m = m
  mem-sort_by a (x ∷ xs) m =
      mem-insert_sorted a x (sort_by le xs)
        (elim (Member.cases_cons m) [ inl e ↦ head e | inr m' ↦ tail (mem-sort_by a xs m') ])

  All-insert_sorted {κ} :
      (P : A → Type κ) (x : A) (xs : List A) → P x → All P xs → All P (insert_sorted le x xs)
  unfolding insert_sorted
  All-insert_sorted P x [] p ps = (p, tt)
  All-insert_sorted P x (y ∷ ys) p ps = elim (Bool-cases (le x y)) [
    | inl before ↦ rw (before, insert_sorted) (p, ps)
    | inr after ↦ rw (after, insert_sorted) (ps.0, All-insert_sorted P x ys p ps.1)
  ]

  pub All-sort_by {κ} : (P : A → Type κ) (xs : List A) → All P xs → All P (sort_by le xs)
  unfolding sort_by
  All-sort_by P [] ps = ps
  All-sort_by P (x ∷ xs) ps = All-insert_sorted P x (sort_by le xs) ps.0 (All-sort_by P xs ps.1)

  length-insert_sorted : (x : A) (xs : List A) → length (insert_sorted le x xs) ≡ suc (length xs)
  unfolding insert_sorted
  length-insert_sorted x [] = refl
  length-insert_sorted x (y ∷ ys) = ground (arith, length-insert_sorted x ys)

  pub length-sort_by : (xs : List A) → length (sort_by le xs) ≡ length xs
  unfolding sort_by
  length-sort_by [] = refl
  length-sort_by (x ∷ xs) =
      ground (arith, length-insert_sorted x (sort_by le xs), length-sort_by xs)

-- For an order that is total and transitive.
module _ {ℓ} {A : Type ℓ} (le : A → A → Bool) (total : (x y : A) → le x y ≡ false → le y x ≡ true)
    (trans : (x y z : A) → le x y ≡ true → le y z ≡ true → le x z ≡ true) where
  insert_sorted-IsOrdered :
      (x : A) (xs : List A) → IsOrdered le xs → IsOrdered le (insert_sorted le x xs)
  unfolding insert_sorted
  insert_sorted-IsOrdered x [] o = (tt, tt)
  insert_sorted-IsOrdered x (y ∷ ys) o = elim (Bool-cases (le x y)) [
    | inl before ↦
        rw (before, insert_sorted) ((before, All-map _ _ (λ z h. trans x y z before h) ys o.0), o)
    | inr after ↦
        rw (after, insert_sorted)
          (
            All-insert_sorted le (λ z. le y z ≡ true) x ys (total x y after) o.0,
            insert_sorted-IsOrdered x ys o.1,
          )
  ]

  pub sort_by-IsOrdered : (xs : List A) → IsOrdered le (sort_by le xs)
  unfolding sort_by
  sort_by-IsOrdered [] = tt
  sort_by-IsOrdered (x ∷ xs) = insert_sorted-IsOrdered x (sort_by le xs) (sort_by-IsOrdered xs)
