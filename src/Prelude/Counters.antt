-- ===== src/Prelude/Counters.antt =====
-- Counting into a dict, `d[k] = d.get(k, 0) + 1`, and the keys of a dict that is written to.
use Prim.Native.Nat.{ℕ, ◌+◌}
use mathlib.Core.Path.{◌≡◌, refl}
use mathlib.Core.Bool.{Bool, false, ◌||◌}
use mathlib.Core.Option.{none, some}
use mathlib.Core.List.{[], ◌∷◌, ◌++◌}
use native.Mathlib.Omega.{arith}
use sdw_lab_benchmarks.Prelude.Tests.{if◌then◌else◌}
use sdw_lab_benchmarks.Prelude.Lists.{keep}
use sdw_lab_benchmarks.Prelude.Equality.{Eq}
use sdw_lab_benchmarks.Prelude.Sets.{contains, IsDistinct}
use sdw_lab_benchmarks.Prelude.Dicts.{Dict, keys, lookup, insert, lookup-insert, lookup-eq-none_iff}

module _ {ℓ κ} {K : Type ℓ} {V : Type κ} ⦃e : Eq K⦄ where
  pub contains-keys-insert :
      (k j : K) (v : V) (d : Dict K V)
      → contains (keys (insert k v d)) j ≡ (e.beq j k || contains (keys d) j)
  unfolding contains insert
  contains-keys-insert k j v [] = refl
  contains-keys-insert k j v ((i, w) ∷ d) =
      ground (arith, contains-keys-insert k j v d, e.beq_iff k i, e.beq_iff j k, e.beq_iff j i)

  pub keys-insert-IsDistinct :
      (k : K) (v : V) (d : Dict K V) → IsDistinct (keys d) → IsDistinct (keys (insert k v d))
  unfolding contains insert
  keys-insert-IsDistinct k v [] h = (refl, tt)
  keys-insert-IsDistinct k v ((i, w) ∷ d) h = ground (
    arith,
    contains-keys-insert k i v d,
    keys-insert-IsDistinct k v d,
    e.beq_iff k i,
    e.beq_iff i k,
  )

  -- A new key is written at the end.
  pub insert_new :
      (k : K) (v : V) (d : Dict K V) → contains (keys d) k ≡ false → insert k v d ≡ d ++ (k, v) ∷ []
  unfolding contains insert
  insert_new k v [] h = refl
  insert_new k v ((i, w) ∷ d) h = ground (arith, insert_new k v d)

  -- Where the keys are distinct, a filter on values is a filter on lookups.
  pub contains-keys-keep :
      (p : V → Bool) (k : K) (d : Dict K V)
      → IsDistinct (keys d)
      → contains (keys (keep (λ (b : K × V). p b.1) d)) k
        ≡ (elim (lookup k d) [ none ↦ false | some v ↦ p v ])
  unfolding contains lookup
  contains-keys-keep p k [] h = refl
  contains-keys-keep p k ((i, w) ∷ d) h = ground (
    arith,
    contains-keys-keep p k d h.1,
    e.beq_iff k i,
    lookup-eq-none_iff k d,
    lookup-eq-none_iff i d,
  )

  pub keys-keep-IsDistinct :
      (p : V → Bool) (d : Dict K V)
      → IsDistinct (keys d)
      → IsDistinct (keys (keep (λ (b : K × V). p b.1) d))
  keys-keep-IsDistinct p [] h = tt
  keys-keep-IsDistinct p ((i, w) ∷ d) h =
      ground
        (arith, keys-keep-IsDistinct p d h.1, contains-keys-keep p i d h.1, lookup-eq-none_iff i d)

module _ {ℓ} {K : Type ℓ} ⦃e : Eq K⦄ where
  -- `d.get(k, 0)`
  abbrev pub get_count : K → Dict K ℕ → ℕ
  get_count k d = elim (lookup k d) [ none ↦ 0 | some n ↦ n ]

  unfoldable pub bump : K → Dict K ℕ → Dict K ℕ
  bump k d = insert k (get_count k d + 1) d

  pub get_count-bump :
      (k j : K) (d : Dict K ℕ)
      → get_count j (bump k d) ≡ (if e.beq j k then 1 else 0) + get_count j d
  unfolding bump
  get_count-bump k j d = ground (arith, lookup-insert k j (get_count k d + 1) d, e.beq_iff j k)

  pub keys-bump-IsDistinct :
      (k : K) (d : Dict K ℕ) → IsDistinct (keys d) → IsDistinct (keys (bump k d))
  unfolding bump
  keys-bump-IsDistinct k d h = keys-insert-IsDistinct k (get_count k d + 1) d h
