-- ===== src/Prelude/Text.antt =====
-- Python's text operations that the program uses, over the characters of a `String`.
use Prim.Native.Char.{Char, code}
use Prim.Native.String.{String, [], ◌∷◌}
use mathlib.Core.Path.{◌≡◌, refl}
use mathlib.Core.Bool.{Bool, true, false, ◌&&◌, ◌||◌}
use mathlib.Core.List.{List}
use mathlib.Core.Logic.{inl, inr}
use sdw_lab_benchmarks.Prelude.Tests.{eqb, if◌then◌else◌, Bool-cases}

-- `c == d`
abbrev pub same_char : Char → Char → Bool
same_char c d = eqb (code c) (code d)

-- one more character at the front of the first part
abbrev onto_first : Char → List String → List String
onto_first c List.[] = List.◌∷◌ (c ∷ []) List.[]
onto_first c (List.◌∷◌ w ws) = List.◌∷◌ (c ∷ w) ws

-- `s.split(sep)` for a separator of one character
unfoldable pub split : Char → String → List String
split sep [] = List.◌∷◌ [] List.[]
split sep (c ∷ s) =
    let rest = split sep s in if same_char c sep then List.◌∷◌ [] rest else onto_first c rest

-- `s.startswith(p)`
unfoldable pub starts_with : String → String → Bool
starts_with s [] = true
starts_with [] (c ∷ p) = false
starts_with (d ∷ s) (c ∷ p) = same_char d c && starts_with s p

-- `p in s`
unfoldable pub is_in : String → String → Bool
unfolding starts_with
is_in p [] = starts_with [] p
is_in p (c ∷ s) = starts_with (c ∷ s) p || is_in p s

split_path : split "." "metadata.uid" ≡ List.◌∷◌ "metadata" (List.◌∷◌ "uid" List.[])
unfolding split
split_path = refl

is_in_path : (is_in "data" "metadata" ≡ true) × (is_in "tag" "metadata" ≡ false)
unfolding is_in
is_in_path = (refl, refl)

pub split-cons :
    (sep : Char) (s : String) → (w : String) × (ws : List String) × (split sep s ≡ List.◌∷◌ w ws)
unfolding split
split-cons sep [] = ([], List.[], refl)
split-cons sep (c ∷ s) =
    let (w, ws, e) = split-cons sep s in
    elim (Bool-cases (same_char c sep)) [
      | inl here ↦ ([], split sep s, rw (here, split) refl)
      | inr other ↦ (c ∷ w, ws, rw (other, split, e) refl)
    ]
