-- ===== src/Prelude/Edits.antt =====
-- Python's operations that make a new text. Letters are ASCII, and white space is the blank, as in
-- the texts that the program edits.
use Prim.Native.Nat.{ℕ, zero, suc}
use Prim.Native.Char.{Char}
use Prim.Native.String.{String, [], ◌∷◌, ◌++◌}
use mathlib.Core.Path.{◌≡◌, refl}
use mathlib.Core.Bool.{Bool, true, false, ◌&&◌}
use mathlib.Core.List.{List}
use sdw_lab_benchmarks.Prelude.Tests.{if◌then◌else◌}
use sdw_lab_benchmarks.Prelude.Text.{same_char, starts_with}

-- `not s`
abbrev pub is_blank : String → Bool
is_blank [] = true
is_blank (c ∷ s) = false

-- `s or t`
abbrev pub or_else : String → String → String
or_else s t = if is_blank s then t else s

-- an f-string of two parts
infixr 65 ◌⧺◌
abbrev pub ◌⧺◌ : String → String → String
s ⧺ t = s ++ t

-- `" ".join(...)`
abbrev pub join_words : List String → String
join_words List.[] = []
join_words (List.◌∷◌ s List.[]) = s
join_words (List.◌∷◌ s (List.◌∷◌ t ss)) = s ++ (" " ++ join_words (List.◌∷◌ t ss))

abbrev lower_char : Char → String → String → Char
lower_char c [] lowers = c
lower_char c (u ∷ uppers) [] = c
lower_char c (u ∷ uppers) (l ∷ lowers) =
    let rest = lower_char c uppers lowers in if same_char c u then l else rest

-- `s.lower()`
unfoldable pub to_lower : String → String
to_lower [] = []
to_lower (c ∷ s) =
    lower_char c "ABCDEFGHIJKLMNOPQRSTUVWXYZ" "abcdefghijklmnopqrstuvwxyz" ∷ to_lower s

-- `s.lstrip(c)` and `s.rstrip(c)`
unfoldable pub strip_front : Char → String → String
strip_front sep [] = []
strip_front sep (c ∷ s) = let rest = strip_front sep s in if same_char c sep then rest else c ∷ s

unfoldable pub strip_end : Char → String → String
strip_end sep [] = []
strip_end sep (c ∷ s) =
    let rest = strip_end sep s in if same_char c sep && is_blank rest then [] else c ∷ rest

-- `s.strip()`
unfoldable pub strip : String → String
unfolding strip_front strip_end
strip s = strip_front " " (strip_end " " s)

-- `s[:n]`
unfoldable pub take_chars : ℕ → String → String
take_chars zero s = []
take_chars (suc n) [] = []
take_chars (suc n) (c ∷ s) = c ∷ take_chars n s

-- `xs[0]` and `xs[-1]` of a split, which is not empty
abbrev pub first_of : List String → String
first_of List.[] = []
first_of (List.◌∷◌ s ss) = s

abbrev pub last_of : List String → String
last_of List.[] = []
last_of (List.◌∷◌ s List.[]) = s
last_of (List.◌∷◌ s (List.◌∷◌ t ss)) = last_of (List.◌∷◌ t ss)

-- how many characters `old` has after its first one
abbrev rest_size : String → ℕ
rest_size [] = 0
rest_size (c ∷ []) = 0
rest_size (c ∷ d ∷ s) = suc (rest_size (d ∷ s))

-- `s.replace(old, new)` for an `old` that is not empty; `skip` characters of an occurrence are left.
unfoldable pub replace_from : String → String → ℕ → String → String
unfolding starts_with
replace_from old new skip [] = []
replace_from old new (suc skip) (c ∷ s) = replace_from old new skip s
replace_from old new zero (c ∷ s) = elim (starts_with (c ∷ s) old) [
  | true ↦ new ++ replace_from old new (rest_size old) s
  | false ↦ c ∷ replace_from old new zero s
]

unfoldable pub replace : String → String → String → String
unfolding replace_from
replace old new s = replace_from old new zero s

replace_relation : replace "d3f:" "skos_" "d3f:broader" ≡ "skos_broader"
unfolding replace
replace_relation = refl

lower_label : to_lower (strip "  File Event ") ≡ "file event"
unfolding to_lower strip
lower_label = refl
