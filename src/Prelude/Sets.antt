-- ===== src/Prelude/Sets.antt =====
-- A Python `set` as a list without repetitions; its order is never read.
use Prim.Native.Nat.{◌+◌}
use mathlib.Core.Path.{◌≡◌, refl}
use mathlib.Core.Logic.{◌↔◌}
use mathlib.Core.Bool.{Bool, true, false, not, ◌&&◌, ◌||◌}
use mathlib.Core.List.{List, [], ◌∷◌, ◌++◌}
use native.Mathlib.Omega.{arith}
use sdw_lab_benchmarks.Prelude.Tests.{if◌then◌else◌}
use sdw_lab_benchmarks.Prelude.Lists.{length, keep, is_empty}
use sdw_lab_benchmarks.Prelude.Equality.{Eq}

module _ {ℓ} {A : Type ℓ} ⦃e : Eq A⦄ where
  -- `a in xs`
  unfoldable pub contains : List A → A → Bool
  contains [] a = false
  contains (x ∷ xs) a = e.beq a x || contains xs a

  -- `xs.add(a)`
  unfoldable pub add : A → List A → List A
  unfolding contains
  add a xs = if contains xs a then xs else a ∷ xs

  abbrev pub IsDistinct : List A → Type 0
  IsDistinct [] = Unit
  IsDistinct (x ∷ xs) = (contains xs x ≡ false) × IsDistinct xs

  pub contains-add : (a b : A) (xs : List A) → contains (add a xs) b ≡ (e.beq b a || contains xs b)
  unfolding add
  contains-add a b xs = ground (arith, e.beq_iff b a)

  pub add-IsDistinct : (a : A) (xs : List A) → IsDistinct xs → IsDistinct (add a xs)
  unfolding add
  add-IsDistinct a xs d = ground arith

  pub contains-append :
      (xs ys : List A) (a : A) → contains (xs ++ ys) a ≡ (contains xs a || contains ys a)
  unfolding contains
  contains-append [] ys a = refl
  contains-append (x ∷ xs) ys a = ground (arith, contains-append xs ys a)

  pub append-IsDistinct :
      (xs : List A) (a : A) → IsDistinct xs → contains xs a ≡ false → IsDistinct (xs ++ a ∷ [])
  unfolding contains
  append-IsDistinct [] a d h = (refl, tt)
  append-IsDistinct (x ∷ xs) a d h = (
    ground (arith, contains-append xs (a ∷ []) x, e.beq_iff a x, e.beq_iff x a),
    append-IsDistinct xs a d.1 (ground arith),
  )

  pub contains-keep :
      (p : A → Bool) (xs : List A) (a : A) → contains (keep p xs) a ≡ (p a && contains xs a)
  unfolding contains
  contains-keep p [] a = ground arith
  contains-keep p (x ∷ xs) a = ground (arith, contains-keep p xs a, e.beq_iff a x)

  pub keep-IsDistinct : (p : A → Bool) (xs : List A) → IsDistinct xs → IsDistinct (keep p xs)
  keep-IsDistinct p [] d = tt
  keep-IsDistinct p (x ∷ xs) d = ground (arith, keep-IsDistinct p xs d.1, contains-keep p xs x)

  -- `xs - ys`
  unfoldable pub set_difference : List A → List A → List A
  unfolding contains
  set_difference xs ys = keep (λ x. not (contains ys x)) xs

  pub contains-set_difference :
      (xs ys : List A) (a : A)
      → contains (set_difference xs ys) a ≡ (not (contains ys a) && contains xs a)
  unfolding set_difference
  contains-set_difference xs ys a = contains-keep _ xs a

  -- A set comprehension adds the elements one by one.
  unfoldable pub to_set : List A → List A → List A
  unfolding add
  to_set [] seen = seen
  to_set (x ∷ xs) seen = to_set xs (add x seen)

  pub contains-to_set :
      (xs seen : List A) (a : A) → contains (to_set xs seen) a ≡ (contains xs a || contains seen a)
  unfolding to_set contains
  contains-to_set [] seen a = refl
  contains-to_set (x ∷ xs) seen a =
      ground (arith, contains-to_set xs (add x seen) a, contains-add x a seen)

  pub is_empty_iff : (xs : List A) → (is_empty xs ≡ true) ↔ ((a : A) → contains xs a ≡ false)
  unfolding contains
  is_empty_iff [] = (λ h a. refl, λ h. refl)
  is_empty_iff (x ∷ xs) =
      (λ h. absurd cc, λ h. let no = h x in let same = e.beq_iff x x in ground arith)

  pub length-add :
      (x : A) (xs : List A) → length (add x xs) ≡ (if contains xs x then 0 else 1) + length xs
  unfolding add
  length-add x xs = ground arith
