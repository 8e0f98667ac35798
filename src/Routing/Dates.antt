-- ===== src/Routing/Dates.antt =====
-- The dates that deterministic-routing-sim/route_sim.py reads in a predicate: Python's
-- `re.search(r"(\d{4})-(\d{2})-(\d{2})", s)` and `datetime.date`.
use Prim.Native.Char.{Char, code}
use Prim.Native.String.{String, [], ◌∷◌}
use mathlib.Core.Path.{◌≡◌, refl}
use mathlib.Core.Option.{Option, none, some}
use mathlib.Core.Bool.{Bool, ◌&&◌, ◌||◌}
use Prim.Native.Nat.{ℕ, zero, suc, ◌+◌, ◌-◌, ◌*◌, ◌/◌, ◌%◌}
use sdw_lab_benchmarks.Prelude.{leb, ltb, eqb, if◌then◌else◌}
use sdw_lab_benchmarks.Prelude.Text.{same_char}

abbrev pub is_digit : Char → Bool
is_digit c = leb 48 (code c) && leb (code c) 57

-- `n` digits after those read so far, and the rest of the text
unfoldable pub digits : ℕ → ℕ → String → Option (ℕ × String)
digits zero value s = some (value, s)
digits (suc n) value [] = none
digits (suc n) value (c ∷ s) =
    let rest = digits n (10 * value + (code c - 48)) s in if is_digit c then rest else none

abbrev pub dash : String → Option String
dash [] = none
dash (c ∷ s) = if same_char c "-" then some s else none

pub record Written : Type 0 where
  pub year : ℕ
  pub month : ℕ
  pub day : ℕ

-- a match at the beginning of the text
unfoldable pub date_here : String → Option Written
unfolding digits
date_here s = elim (digits 4 0 s) [
  | none ↦ none
  | some (y, after_year) ↦ elim (dash after_year) [
    | none ↦ none
    | some at_month ↦ elim (digits 2 0 at_month) [
      | none ↦ none
      | some (mo, after_month) ↦ elim (dash after_month) [
        | none ↦ none
        | some at_day ↦ elim (digits 2 0 at_day) [
          | none ↦ none
          | some (d, rest) ↦ some (record { year = y; month = mo; day = d })
        ]
      ]
    ]
  ]
]

-- `_DATE_RE.search`
unfoldable pub find_date : String → Option Written
unfolding date_here
find_date [] = none
find_date (c ∷ s) =
    let later = find_date s in elim (date_here (c ∷ s)) [ none ↦ later | some w ↦ some w ]

abbrev pub is_leap : ℕ → Bool
is_leap y = (eqb (y % 4) 0 && ltb 0 (y % 100)) || eqb (y % 400) 0

abbrev pub days_in_month : ℕ → ℕ → ℕ
days_in_month y m =
    if eqb m 2
    then if is_leap y then 29 else 28
    else if eqb m 4 || eqb m 6 || eqb m 9 || eqb m 11
    then 30
    else 31

-- the days of the first months of a year
unfoldable pub days_before : ℕ → ℕ → ℕ
days_before y zero = 0
days_before y (suc m) = days_in_month y (suc m) + days_before y m

-- `date(y, mo, d)`: its ordinal, or none for a ValueError
unfoldable pub ordinal : Written → Option ℕ
unfolding days_before
ordinal w =
    if leb 1 w.year
      && leb 1 w.month
      && leb w.month 12
      && leb 1 w.day
      && leb w.day (days_in_month w.year w.month)
    then some (
        365 * (w.year - 1)
        + (w.year - 1) / 4
        - (w.year - 1) / 100
        + (w.year - 1) / 400
        + days_before w.year (w.month - 1)
        + w.day)
    else none

-- 2026-06-15
abbrev pub now_ref : Written
now_ref = record { year = 2026; month = 6; day = 15 }

ordinal_now : ordinal now_ref ≡ some 739782
unfolding ordinal
ordinal_now = refl

ordinal_first : ordinal (record { year = 1; month = 1; day = 1 }) ≡ some 1
unfolding ordinal
ordinal_first = refl

no_day : ordinal (record { year = 2025; month = 2; day = 29 }) ≡ none
unfolding ordinal
no_day = refl

found_date : find_date "ts > date '2026-06-14'" ≡ some (record { year = 2026; month = 6; day = 14 })
unfolding find_date
found_date = refl
