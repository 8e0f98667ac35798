-- ===== src/Prelude/Sorting.antt =====
-- Python's `sorted`, as an insertion sort by a Boolean order.
use mathlib.Core.Path.{◌≡◌, refl, ap}
use mathlib.Core.Bool.{Bool, false, ◌||◌}
use mathlib.Core.List.{List, [], ◌∷◌, map}
use native.Mathlib.Omega.{arith}
use sdw_lab_benchmarks.Prelude.Tests.{if◌then◌else◌}
use sdw_lab_benchmarks.Prelude.Equality.{Eq}
use sdw_lab_benchmarks.Prelude.Sets.{contains, IsDistinct}

module _ {ℓ} {A : Type ℓ} (le : A → A → Bool) where
  unfoldable pub insert_sorted : A → List A → List A
  insert_sorted x [] = x ∷ []
  insert_sorted x (y ∷ ys) =
      let rest = insert_sorted x ys in if le x y then x ∷ y ∷ ys else y ∷ rest

  unfoldable pub sort_by : List A → List A
  unfolding insert_sorted
  sort_by [] = []
  sort_by (x ∷ xs) = insert_sorted x (sort_by xs)

-- Sorting changes no membership and no distinctness of what is read off the elements.
module _ {ℓ κ} {A : Type ℓ} {K : Type κ} ⦃e : Eq K⦄ (le : A → A → Bool) (key : A → K) where
  contains-insert_sorted :
      (k : K) (x : A) (xs : List A)
      → contains (map key (insert_sorted le x xs)) k ≡ (e.beq k (key x) || contains (map key xs) k)
  unfolding contains insert_sorted
  contains-insert_sorted k x [] = refl
  contains-insert_sorted k x (y ∷ ys) = ground (arith, contains-insert_sorted k x ys)

  pub contains-sort_by :
      (k : K) (xs : List A) → contains (map key (sort_by le xs)) k ≡ contains (map key xs) k
  unfolding contains sort_by
  contains-sort_by k [] = refl
  contains-sort_by k (x ∷ xs) =
      ground (arith, contains-insert_sorted k x (sort_by le xs), contains-sort_by k xs)

  insert_sorted-IsDistinct :
      (x : A) (xs : List A)
      → contains (map key xs) (key x) ≡ false
      → IsDistinct (map key xs)
      → IsDistinct (map key (insert_sorted le x xs))
  unfolding contains insert_sorted
  insert_sorted-IsDistinct x [] h d = (refl, tt)
  insert_sorted-IsDistinct x (y ∷ ys) h d = ground (
    arith,
    contains-insert_sorted (key y) x ys,
    insert_sorted-IsDistinct x ys,
    e.beq_iff (key x) (key y),
    e.beq_iff (key y) (key x),
  )

  pub sort_by-IsDistinct :
      (xs : List A) → IsDistinct (map key xs) → IsDistinct (map key (sort_by le xs))
  unfolding sort_by
  sort_by-IsDistinct [] d = d
  sort_by-IsDistinct (x ∷ xs) d =
      insert_sorted-IsDistinct x (sort_by le xs) (rw contains-sort_by d.0)
        (sort_by-IsDistinct xs d.1)

map_self {ℓ} : {A : Type ℓ} (xs : List A) → map (λ x. x) xs ≡ xs
map_self [] = refl
map_self (x ∷ xs) = ap (◌∷◌ x) (map_self xs)

module _ {ℓ} {A : Type ℓ} ⦃e : Eq A⦄ (le : A → A → Bool) where
  pub contains-sort_by_self : (k : A) (xs : List A) → contains (sort_by le xs) k ≡ contains xs k
  contains-sort_by_self k xs = simp map_self at (contains-sort_by le (λ x. x) k xs)

  pub sort_by_self-IsDistinct : (xs : List A) → IsDistinct xs → IsDistinct (sort_by le xs)
  sort_by_self-IsDistinct xs d =
      simp map_self at (sort_by-IsDistinct le (λ x. x) xs (rw (map_self xs) d))
