-- ===== src/Prelude/Dicts.antt =====
-- A Python `dict` as an association list in insertion order.
use mathlib.Core.Path.{◌≡◌, refl}
use mathlib.Core.Logic.{◌↔◌}
use mathlib.Core.Bool.{false}
use mathlib.Core.Option.{Option, none, some}
use mathlib.Core.List.{List, [], ◌∷◌}
use native.Mathlib.Omega.{arith}
use sdw_lab_benchmarks.Prelude.Tests.{if◌then◌else◌}
use sdw_lab_benchmarks.Prelude.Equality.{Eq}
use sdw_lab_benchmarks.Prelude.Sets.{contains}

abbrev pub Dict {ℓ κ} : Type ℓ → Type κ → Type (ℓ ⊔ κ)
Dict K V = List (K × V)

module _ {ℓ κ} {K : Type ℓ} {V : Type κ} where
  -- `d.keys()`
  abbrev pub keys : Dict K V → List K
  keys [] = []
  keys ((k, v) ∷ d) = k ∷ keys d

module _ {ℓ κ} {K : Type ℓ} {V : Type κ} ⦃e : Eq K⦄ where
  -- `d.get(k)`
  unfoldable pub lookup : K → Dict K V → Option V
  lookup k [] = none
  lookup k ((j, v) ∷ d) = if e.beq k j then some v else lookup k d

  -- `d[k] = v`: a key that is there keeps its place
  unfoldable pub insert : K → V → Dict K V → Dict K V
  insert k v [] = (k, v) ∷ []
  insert k v ((j, w) ∷ d) =
      let rest = insert k v d in if e.beq k j then (j, v) ∷ d else (j, w) ∷ rest

  pub lookup-insert :
      (k j : K) (v : V) (d : Dict K V)
      → lookup j (insert k v d) ≡ (if e.beq j k then some v else lookup j d)
  unfolding lookup insert
  lookup-insert k j v [] = refl
  lookup-insert k j v ((i, w) ∷ d) =
      ground (arith, e.beq_iff j k, e.beq_iff k i, e.beq_iff j i, lookup-insert k j v d)

  -- A key is among the keys exactly when the lookup finds a value.
  pub lookup-eq-none_iff :
      (k : K) (d : Dict K V) → (lookup k d ≡ none) ↔ (contains (keys d) k ≡ false)
  unfolding lookup contains
  lookup-eq-none_iff k [] = (λ _. refl, λ _. refl)
  lookup-eq-none_iff k ((j, v) ∷ d) = ground (arith, lookup-eq-none_iff k d)
