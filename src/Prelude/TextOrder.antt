-- ===== src/Prelude/TextOrder.antt =====
-- Python's `<=` on texts, by the numbers of the characters.
use Prim.Native.Char.{code}
use Prim.Native.String.{String, [], ◌∷◌}
use mathlib.Core.Path.{◌≡◌, refl}
use mathlib.Core.Bool.{Bool, true, false}
use native.Mathlib.Omega.{arith}
use sdw_lab_benchmarks.Prelude.Tests.{ltb, if◌then◌else◌}

unfoldable pub text_le : String → String → Bool
text_le [] t = true
text_le (c ∷ s) [] = false
text_le (c ∷ s) (d ∷ t) =
    let rest = text_le s t in
    if ltb (code c) (code d) then true else if ltb (code d) (code c) then false else rest

pub text_le_total : (s t : String) → text_le s t ≡ false → text_le t s ≡ true
unfolding text_le
text_le_total [] t h = absurd cc
text_le_total (c ∷ s) [] h = refl
text_le_total (c ∷ s) (d ∷ t) h = ground (arith, text_le_total s t)

pub text_le_trans : (r s t : String) → text_le r s ≡ true → text_le s t ≡ true → text_le r t ≡ true
unfolding text_le
text_le_trans [] s t h k = refl
text_le_trans (b ∷ r) [] t h k = absurd cc
text_le_trans (b ∷ r) (c ∷ s) [] h k = absurd cc
text_le_trans (b ∷ r) (c ∷ s) (d ∷ t) h k = ground (arith, text_le_trans r s t)
