-- ===== src/Prelude/Results.antt =====
-- Functions that may raise: a value, or an exception of the component's own error type.
use mathlib.Core.Path.{◌≡◌, refl}
use mathlib.Core.Bool.{Bool, true, false}
use mathlib.Core.Option.{Option, none, some}
use mathlib.Core.List.{List, [], ◌∷◌}
use native.Mathlib.Omega.{arith}
use sdw_lab_benchmarks.Prelude.Lists.{All}

pub data Result {ℓ κ} (E : Type ℓ) (A : Type κ) : Type (ℓ ⊔ κ) where
  ok : A → Result E A
  raise : E → Result E A

infixl 5 ◌>>=◌ ◌>>◌
abbrev pub ◌>>=◌ {ℓ κ μ} :
    {E : Type ℓ} {A : Type κ} {B : Type μ} → Result E A → (A → Result E B) → Result E B
ok a >>= f = f a
raise e >>= f = raise e

abbrev pub ◌>>◌ {ℓ κ} : {E : Type ℓ} {B : Type κ} → Result E (Unit {0}) → Result E B → Result E B
m >> k = m >>= λ _. k

-- `if b: raise e`
abbrev pub raise_if {ℓ} : {E : Type ℓ} → Bool → E → Result E (Unit {0})
raise_if true e = raise e
raise_if false e = ok tt

-- `d[k]`, where a missing key raises
abbrev pub from_option {ℓ κ} : {E : Type ℓ} {A : Type κ} → E → Option A → Result E A
from_option e none = raise e
from_option e (some a) = ok a

-- Inversion of a bind that returns.
pub >>=-eq-ok {ℓ κ μ} :
    {E : Type ℓ} {A : Type κ} {B : Type μ} (first : Result E A) (then_ : A → Result E B) {res : B}
    → (first >>= then_) ≡ ok res
    → (x : A) × (first ≡ ok x) × (then_ x ≡ ok res)
>>=-eq-ok (raise e) then_ returned = cc
>>=-eq-ok (ok x) then_ returned = (x, refl, returned)

-- `[f(x) for x in xs]`, where `f` may raise
unfoldable pub collect {ℓ κ μ} :
    {E : Type ℓ} {A : Type κ} {B : Type μ} → (A → Result E B) → List A → Result E (List B)
collect f [] = ok []
collect f (x ∷ xs) = do y ← f x; ys ← collect f xs; ok (y ∷ ys)

-- What each call that returns has, all results of a `collect` that returns have.
pub collect-All {ℓ κ μ ν} :
    {E : Type ℓ} {A : Type κ} {B : Type μ} (P : B → Type ν) (f : A → Result E B)
    → ((x : A) (y : B) → f x ≡ ok y → P y)
    → (xs : List A) (ys : List B) → collect f xs ≡ ok ys
    → All P ys
unfolding collect
collect-All P f h [] [] e = tt
collect-All P f h [] (y ∷ ys) e = absurd (ground arith)
collect-All P f h (x ∷ xs) ys e =
    let (y, p, e') = >>=-eq-ok (f x) _ e in
    let (rest, q, r) = >>=-eq-ok (collect f xs) _ e' in
    let s : (y ∷ rest) ≡ ys = cc in rw (← s) (h x y p, collect-All P f h xs rest q)
