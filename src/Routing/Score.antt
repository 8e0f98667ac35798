-- ===== src/Routing/Score.antt =====
-- The score of the routers over a corpus, deterministic-routing-sim/route_sim.py (`run`, `score`,
-- `acc`). A query that sqlglot does not parse is `none`.
use sdw_lab_benchmarks.Prelude.{
  ℕ, String, Bool, true, false, not, ◌&&◌, Option, none, some, List, [], ◌∷◌, ◌++◌, ◌==◌, keep,
  length, count_if, string_eq, if◌then◌else◌,
}
use sdw_lab_benchmarks.Routing.Winners.{
  Engine, Shape, Tier, Outcome, correct, minor_misroute, catastrophic_misroute, parse_fail,
  classify,
}
use sdw_lab_benchmarks.Routing.Router.{Query, route}

-- An entry of the corpus, with its true tier and shape.
pub record Case : Type 0 where
  pub id : String
  pub mode : String
  pub expected_tier : Tier
  pub shape : Shape
  pub parsed : Option Query

-- A row of the results.
pub record Row : Type 0 where
  pub full_router : Bool
  pub id : String
  pub mode : String
  pub outcome : Outcome

-- `score`: the outcome of a pick; a router without one has raised.
unfoldable pub picked_outcome : Tier → Shape → Option Engine → Outcome
unfolding classify
picked_outcome expected_tier shape none = parse_fail
picked_outcome expected_tier shape (some pick) = classify pick expected_tier shape

unfoldable pub parsed_outcome : Bool → Tier → Shape → Option Query → Outcome
unfolding route picked_outcome
parsed_outcome use_catalog expected_tier shape none = parse_fail
parsed_outcome use_catalog expected_tier shape (some q) =
    picked_outcome expected_tier shape (route use_catalog q).pick

unfoldable pub outcome_of : Bool → Case → Outcome
unfolding parsed_outcome
outcome_of use_catalog c = parsed_outcome use_catalog c.expected_tier c.shape c.parsed

unfoldable pub score : Bool → Case → Row
unfolding outcome_of
score use_catalog c = record {
  full_router = use_catalog;
  id = c.id;
  mode = c.mode;
  outcome = outcome_of use_catalog c;
}

-- The mode of the rows of the templated queries.
abbrev pub templated_mode : String
templated_mode = "templated"

-- The loop over the templated queries.
unfoldable pub templated_rows : List Case → List Row
unfolding score
templated_rows [] = []
templated_rows (c ∷ cases) = score true (record c { mode = templated_mode }) ∷ templated_rows cases

-- The loop over the adversarial ones.
unfoldable pub adversarial_rows : List Case → List Row
unfolding score
adversarial_rows [] = []
adversarial_rows (c ∷ cases) = score true c ∷ score false c ∷ adversarial_rows cases

pub record Accuracy : Type 0 where
  pub n : ℕ
  pub correct_count : ℕ
  pub minor_count : ℕ
  pub catastrophic_count : ℕ
  pub parse_fail_count : ℕ

unfoldable pub count_outcome : Outcome → List Row → ℕ
count_outcome o rows = count_if (λ (r : Row). r.outcome == o) rows

-- `acc`; the accuracy is the quotient of `correct_count` and `n`.
unfoldable pub acc : List Row → Accuracy
unfolding count_outcome
acc rows = record {
  n = length rows;
  correct_count = count_outcome correct rows;
  minor_count = count_outcome minor_misroute rows;
  catastrophic_count = count_outcome catastrophic_misroute rows;
  parse_fail_count = count_outcome parse_fail rows;
}

-- `acc(templated_rows)`
unfoldable pub templated_accuracy : List Row → Accuracy
unfolding acc
templated_accuracy rows = acc (keep (λ (r : Row). r.mode == templated_mode) rows)

-- `acc(full_adv)`
unfoldable pub full_adversarial : List Row → Accuracy
unfolding acc
full_adversarial rows =
    acc (keep (λ (r : Row). r.full_router && not (r.mode == templated_mode)) rows)

-- A mode of `per_mode`, for one router.
unfoldable pub mode_acc : Bool → String → List Row → Accuracy
unfolding acc
mode_acc full mode rows =
    acc (
      keep (λ (r : Row). (if full then r.full_router else not r.full_router) && r.mode == mode)
        rows)

-- The rows of `run`.
unfoldable pub run_rows : List Case → List Case → List Row
unfolding templated_rows adversarial_rows
run_rows templated adversarial = templated_rows templated ++ adversarial_rows adversarial
