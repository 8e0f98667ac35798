-- ===== src/SemanticQuery/Numbers.antt =====
-- The integers that stand in a text, `_numbers` of ocsf-semantic-query/scoring.py. Digits are ASCII.
use Prim.Native.Char.{Char, code}
use Prim.Native.String.{[], ◌∷◌}
use sdw_lab_benchmarks.Prelude.{
  ℕ, zero, suc, ◌+◌, ◌-◌, ◌*◌, String, ◌≡◌, refl, Bool, true, false, ◌&&◌, List, ◌++◌, leb, eqb,
  if◌then◌else◌,
}
use sdw_lab_benchmarks.Prelude.Text.{same_char}

-- An integer: `pos n` is n and `negsuc n` is - (n + 1).
pub data ℤ : Type 0 where
  pos negsuc : ℕ → ℤ

abbrev negated : ℕ → ℤ
negated zero = pos 0
negated (suc n) = negsuc n

-- `abs(n - target)`
unfoldable pub distance : ℤ → ℤ → ℕ
distance (pos m) (pos n) = (m - n) + (n - m)
distance (negsuc m) (negsuc n) = (m - n) + (n - m)
distance (pos m) (negsuc n) = suc (m + n)
distance (negsuc m) (pos n) = suc (m + n)

-- `n == target`
unfoldable pub same_number : ℤ → ℤ → Bool
same_number (pos m) (pos n) = eqb m n
same_number (negsuc m) (negsuc n) = eqb m n
same_number (pos m) (negsuc n) = false
same_number (negsuc m) (pos n) = false

abbrev is_digit : Char → Bool
is_digit c = leb 48 (code c) && leb (code c) 57

-- How far the pattern `-?\d+` has matched: not at all, a sign, or a sign and digits.
pub data Match : Type 0 where
  unmatched signed : Match
  digits : Bool → ℕ → Match

-- The match after one more character.
unfoldable advance : Match → Char → Match
advance unmatched c =
    if is_digit c then digits false (code c - 48) else if same_char c "-" then signed else unmatched
advance signed c =
    if is_digit c then digits true (code c - 48) else if same_char c "-" then signed else unmatched
advance (digits minus n) c =
    if is_digit c
    then digits minus (10 * n + (code c - 48))
    else if same_char c "-"
    then signed
    else unmatched

-- The number of a match that ends.
abbrev matched : Match → List ℤ
matched unmatched = List.[]
matched signed = List.[]
matched (digits true n) = List.◌∷◌ (negated n) List.[]
matched (digits false n) = List.◌∷◌ (pos n) List.[]

-- A match ends before a character that is not a digit.
unfoldable ended : Match → Char → List ℤ
ended so_far c = if is_digit c then List.[] else matched so_far

unfoldable numbers_from : Match → String → List ℤ
unfolding advance ended
numbers_from so_far [] = matched so_far
numbers_from so_far (c ∷ s) = ended so_far c ++ numbers_from (advance so_far c) s

-- `re.findall(r"-?\d+", s)`, as integers
unfoldable pub numbers_in : String → List ℤ
unfolding numbers_from
numbers_in s = numbers_from unmatched s

-- `_numbers`
unfoldable pub numbers_of : List String → List ℤ
unfolding numbers_in
numbers_of List.[] = List.[]
numbers_of (List.◌∷◌ cell cells) = numbers_in cell ++ numbers_of cells

numbers_in_answer :
    numbers_in "dwell -5 s, 2026-06-01 a12--7"
    ≡ List.◌∷◌ (negsuc 4) (
        List.◌∷◌ (pos 2026) (
          List.◌∷◌
            (negsuc 5)
            (List.◌∷◌ (negsuc 0) (List.◌∷◌ (pos 12) (List.◌∷◌ (negsuc 6) List.[])))))
unfolding numbers_in
numbers_in_answer = refl
