-- ===== src/Routing/Totals.antt =====
-- The counts of a summary.
use sdw_lab_benchmarks.Prelude.{
  ℕ, ◌+◌, ◌≡◌, refl, ◌∙◌, arith, String, Bool, true, false, not, ◌&&◌, Option, none, some, List, [],
  ◌∷◌, ◌==◌, All, All-append, All-keep, All-map, keep, count_if, count_if-append, length,
  length-keep, string_eq, if◌then◌else◌,
}
use sdw_lab_benchmarks.Routing.Winners.{
  Engine, Shape, Tier, Outcome, correct, minor_misroute, catastrophic_misroute, parse_fail,
  classify,
}
use sdw_lab_benchmarks.Routing.Router.{Query, route}
use sdw_lab_benchmarks.Routing.Safe.{classify-cases}
use sdw_lab_benchmarks.Routing.Score.{
  Case, Row, Accuracy, picked_outcome, parsed_outcome, outcome_of, score, templated_mode,
  count_outcome, acc, templated_rows, adversarial_rows, run_rows, templated_accuracy,
  full_adversarial, mode_acc,
}

-- How many of the four outcomes a text is.
abbrev times_counted : Outcome → ℕ
times_counted o =
    (if o == correct then 1 else 0)
    + (if o == minor_misroute then 1 else 0)
    + (if o == catastrophic_misroute then 1 else 0)
    + (if o == parse_fail then 1 else 0)

classify_counted :
    (pick : Engine) (tier : Tier) (shape : Shape) → times_counted (classify pick tier shape) ≡ 1
classify_counted pick tier shape =
    classify-cases pick tier shape (λ o. times_counted o ≡ 1) (λ fails. refl) refl refl

picked_counted :
    (tier : Tier) (shape : Shape) (pick : Option Engine)
    → times_counted (picked_outcome tier shape pick) ≡ 1
unfolding picked_outcome
picked_counted tier shape none = refl
picked_counted tier shape (some pick) = classify_counted pick tier shape

parsed_counted :
    (use_catalog : Bool) (tier : Tier) (shape : Shape) (q : Option Query)
    → times_counted (parsed_outcome use_catalog tier shape q) ≡ 1
unfolding parsed_outcome
parsed_counted use_catalog tier shape none = refl
parsed_counted use_catalog tier shape (some q) =
    picked_counted tier shape (route use_catalog q).pick

score_counted : (use_catalog : Bool) (c : Case) → times_counted (score use_catalog c).outcome ≡ 1
unfolding score outcome_of
score_counted use_catalog c = parsed_counted use_catalog c.expected_tier c.shape c.parsed

abbrev AreCounted : List Row → Type 0
AreCounted rows = All (λ (r : Row). times_counted r.outcome ≡ 1) rows

-- The outcomes that an accuracy counts, together.
abbrev pub total : Accuracy → ℕ
total a = a.correct_count + a.minor_count + a.catastrophic_count + a.parse_fail_count

templated_rows-AreCounted : (cases : List Case) → AreCounted (templated_rows cases)
unfolding templated_rows
templated_rows-AreCounted [] = tt
templated_rows-AreCounted (c ∷ cases) =
    (score_counted true (record c { mode = templated_mode }), templated_rows-AreCounted cases)

adversarial_rows-AreCounted : (cases : List Case) → AreCounted (adversarial_rows cases)
unfolding adversarial_rows
adversarial_rows-AreCounted [] = tt
adversarial_rows-AreCounted (c ∷ cases) =
    (score_counted true c, (score_counted false c, adversarial_rows-AreCounted cases))

run_rows-AreCounted : (temps advs : List Case) → AreCounted (run_rows temps advs)
unfolding run_rows
run_rows-AreCounted temps advs =
    All-append (λ (r : Row). times_counted r.outcome ≡ 1) (templated_rows temps)
      (adversarial_rows advs) (templated_rows-AreCounted temps) (adversarial_rows-AreCounted advs)

acc-total : (rows : List Row) → AreCounted rows → total (acc rows) ≡ length rows
unfolding acc count_outcome
acc-total [] h = refl
acc-total (r ∷ rows) h = omega (arith, acc-total rows h.1, h.0)

-- An accuracy over the rows of a run that pass a test counts each of them.
keep-total :
    (p : Row → Bool) (temps advs : List Case)
    → total (acc (keep p (run_rows temps advs)))
      ≡ count_if p (templated_rows temps) + count_if p (adversarial_rows advs)
keep-total p temps advs =
    let rows = run_rows temps advs in
    acc-total (keep p rows) (
      All-map _ (λ (r : Row). times_counted r.outcome ≡ 1) (λ r h. h.0) (keep p rows)
        (All-keep (λ (r : Row). times_counted r.outcome ≡ 1) p rows
          (run_rows-AreCounted temps advs)))
    ∙ (length-keep p rows
        ∙ (unfold run_rows in count_if-append p (templated_rows temps) (adversarial_rows advs)))

-- Which rows the summary's tests pass.
abbrev is_templated : Row → Bool
is_templated r = r.mode == templated_mode

abbrev is_full_adversarial : Row → Bool
is_full_adversarial r = r.full_router && not (r.mode == templated_mode)

abbrev is_of_mode : Bool → String → Row → Bool
is_of_mode full mode r = (if full then r.full_router else not r.full_router) && r.mode == mode

-- No adversarial query has the mode of the templated ones.
abbrev pub AreAdversarial : List Case → Type 0
AreAdversarial advs = All (λ (c : Case). (c.mode == templated_mode) ≡ false) advs

templated_templated :
    (temps : List Case) → count_if is_templated (templated_rows temps) ≡ length temps
unfolding templated_rows score
templated_templated [] = refl
templated_templated (c ∷ temps) = omega (arith, templated_templated temps)

templated_adversarial :
    (advs : List Case) → AreAdversarial advs → count_if is_templated (adversarial_rows advs) ≡ 0
unfolding adversarial_rows score
templated_adversarial [] h = refl
templated_adversarial (c ∷ advs) h = ground (arith, templated_adversarial advs h.1, h.0)

full_templated : (temps : List Case) → count_if is_full_adversarial (templated_rows temps) ≡ 0
unfolding templated_rows score
full_templated [] = refl
full_templated (c ∷ temps) = omega (arith, full_templated temps)

full_advs :
    (advs : List Case)
    → AreAdversarial advs
    → count_if is_full_adversarial (adversarial_rows advs) ≡ length advs
unfolding adversarial_rows score
full_advs [] h = refl
full_advs (c ∷ advs) h = ground (arith, full_advs advs h.1, h.0)

mode_templated :
    (full : Bool) (mode : String) (temps : List Case)
    → (templated_mode == mode) ≡ false
    → count_if (is_of_mode full mode) (templated_rows temps) ≡ 0
unfolding templated_rows score
mode_templated full mode [] h = refl
mode_templated full mode (c ∷ temps) h = ground (arith, mode_templated full mode temps h)

mode_adversarial :
    (full : Bool) (mode : String) (advs : List Case)
    → count_if (is_of_mode full mode) (adversarial_rows advs)
      ≡ count_if (λ (c : Case). c.mode == mode) advs
unfolding adversarial_rows score
mode_adversarial full mode [] = refl
mode_adversarial true mode (c ∷ advs) = ground (arith, mode_adversarial true mode advs)
mode_adversarial false mode (c ∷ advs) = ground (arith, mode_adversarial false mode advs)

-- In the summary of a run whose adversarial queries are of other modes than the templated ones: the
-- four outcomes that the templated accuracy counts add up to all templated queries, those of the
-- overall accuracy of the full router to all adversarial queries, and those of a mode other than
-- the templated one, for either router, to the adversarial queries of that mode.
pub run_adds_up :
    (temps advs : List Case) (full : Bool) (mode : String)
    → AreAdversarial advs
    → (templated_mode == mode) ≡ false
    → (total (templated_accuracy (run_rows temps advs)) ≡ length temps)
      × (total (full_adversarial (run_rows temps advs)) ≡ length advs)
      × (total (mode_acc full mode (run_rows temps advs))
          ≡ count_if (λ (c : Case). c.mode == mode) advs)
unfolding templated_accuracy full_adversarial mode_acc
run_adds_up temps advs full mode others other = (
  omega (
    arith,
    keep-total is_templated temps advs,
    templated_templated temps,
    templated_adversarial advs others,
  ),
  omega (
    arith,
    keep-total is_full_adversarial temps advs,
    full_templated temps,
    full_advs advs others,
  ),
  omega (
    arith,
    keep-total (is_of_mode full mode) temps advs,
    mode_templated full mode temps other,
    mode_adversarial full mode advs,
  ),
)
