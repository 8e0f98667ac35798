-- ===== src/Prelude/Equality.antt =====
-- Equality of keys as an interface, with its instances: Python's `==` on numbers, texts and tuples.
use Prim.Native.Nat.{ℕ}
use Prim.Native.String.{String}
use mathlib.Core.Path.{◌≡◌, refl}
use mathlib.Core.Logic.{◌↔◌}
use mathlib.Core.Bool.{Bool, true, false, ◌&&◌}
use mathlib.Core.Option.{Option, none, some}
use native.Mathlib.Omega.{arith}
use text.Mathlib.Text.{◌==◌ as str_eq}
use text.Mathlib.TextEquality.{eq_iff}
use sdw_lab_benchmarks.Prelude.Tests.{eqb, eqb_iff}

pub record Eq {ℓ} (A : Type ℓ) : Type ℓ where
  pub beq : A → A → Bool
  pub beq_iff : (x y : A) → (beq x y ≡ true) ↔ (x ≡ y)

-- `str`
instance abbrev pub string_eq : Eq String
string_eq = record { beq = str_eq; beq_iff = eq_iff }

-- `int`
instance abbrev pub nat_eq : Eq ℕ
nat_eq = record { beq = eqb; beq_iff = eqb_iff }

infix 50 ◌==◌
abbrev pub ◌==◌ {ℓ} : {K : Type ℓ} ⦃test : Eq K⦄ (x y : K) → Bool
◌==◌ ⦃test⦄ x y = test.beq x y

module _ {ℓ κ} {A : Type ℓ} {B : Type κ} ⦃ea : Eq A⦄ ⦃eb : Eq B⦄ where
  abbrev pub pair_beq : A × B → A × B → Bool
  pair_beq p q = ea.beq p.0 q.0 && eb.beq p.1 q.1

  pub pair_beq_iff : (p q : A × B) → (pair_beq p q ≡ true) ↔ (p ≡ q)
  pair_beq_iff (x, y) (x', y') = ground (arith, eb.beq_iff y y', ea.beq_iff x x')

  instance abbrev pub pair_eq : Eq (A × B)
  pair_eq = record { beq = pair_beq; beq_iff = pair_beq_iff }

module _ {ℓ κ μ} {A : Type ℓ} {B : Type κ} {C : Type μ} ⦃ea : Eq A⦄ ⦃eb : Eq B⦄ ⦃ec : Eq C⦄ where
  abbrev pub triple_beq : A × B × C → A × B × C → Bool
  triple_beq p q = ea.beq p.0 q.0 && eb.beq p.1 q.1 && ec.beq p.2 q.2

  pub triple_beq_iff : (p q : A × B × C) → (triple_beq p q ≡ true) ↔ (p ≡ q)
  triple_beq_iff (a, b, c) (a', b', c') =
      ground (arith, ea.beq_iff a a', eb.beq_iff b b', ec.beq_iff c c')

  instance abbrev pub triple_eq : Eq (A × B × C)
  triple_eq = record { beq = triple_beq; beq_iff = triple_beq_iff }

module _ {ℓ} {A : Type ℓ} ⦃ea : Eq A⦄ where
  abbrev pub option_beq : Option A → Option A → Bool
  option_beq none none = true
  option_beq none (some y) = false
  option_beq (some x) none = false
  option_beq (some x) (some y) = ea.beq x y

  pub option_beq_iff : (p q : Option A) → (option_beq p q ≡ true) ↔ (p ≡ q)
  option_beq_iff none none = (λ h. refl, λ h. refl)
  option_beq_iff none (some y) = (λ h. absurd cc, λ h. absurd cc)
  option_beq_iff (some x) none = (λ h. absurd cc, λ h. absurd cc)
  option_beq_iff (some x) (some y) = ground (arith, ea.beq_iff x y)

  instance abbrev pub option_eq : Eq (Option A)
  option_eq = record { beq = option_beq; beq_iff = option_beq_iff }
