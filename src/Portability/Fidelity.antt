-- ===== src/Portability/Fidelity.antt =====
-- The checks of a compiled correlation query, sigma-portability/fidelity.py. A YAML document is
-- parsed; a number in it is its text.
use sdw_lab_benchmarks.Prelude.{
  ℕ, String, Bool, false, ◌&&◌, ◌||◌, Option, none, some, List, [], ◌∷◌, Dict, ◌==◌, insert, length,
  count_if, any_of, all_of, string_eq, if◌then◌else◌,
}
use sdw_lab_benchmarks.Prelude.Text.{split, is_in}
use sdw_lab_benchmarks.Prelude.Edits.{is_blank, join_words, to_lower, last_of}

-- `AGG_TOKENS`
abbrev pub agg_tokens : List String
agg_tokens =
    "stats" ∷ "count(" ∷ "count as" ∷ "count()" ∷ "event_count" ∷ "values(" ∷ "dc("
    ∷ "count_distinct" ∷ "distinct_count" ∷ "cardinality" ∷ []

-- `WINDOW_TOKENS`
abbrev pub window_tokens : List String
window_tokens =
    "span=" ∷ "span(" ∷ "bin _time" ∷ "| bin" ∷ "date_trunc" ∷ "timebucket" ∷ "earliest="
    ∷ "latest=" ∷ "bucket(" ∷ "range=" ∷ []

-- `DISTINCT_TOKENS`
abbrev pub distinct_tokens : List String
distinct_tokens = "dc(" ∷ "count_distinct" ∷ "distinct_count" ∷ "cardinality" ∷ "estdc" ∷ []

-- `THRESHOLD_OPS`
abbrev pub threshold_ops : List String
threshold_ops = ">=" ∷ ">" ∷ "gte" ∷ "having" ∷ []

-- A `condition`: a key that is missing is `none`, one with a null is `some none`.
pub record Condition : Type 0 where
  pub gte : Option (Option String)
  pub gt : Option (Option String)
  pub field : Option String

-- A `correlation`; a missing condition has no keys.
pub record Correlation : Type 0 where
  pub kind : Option String
  pub group_by : Option (List String)
  pub timespan : Option String
  pub condition : Condition

-- What `parse_correlation` gives back.
pub record Meta : Type 0 where
  pub kind : Option String
  pub group_by : List String
  pub timespan : Option String
  pub threshold : Option String
  pub value_field : Option String

-- `cond.get("gte", cond.get("gt"))`
unfoldable pub threshold_of : Condition → Option String
threshold_of cond = elim cond.gte [
  | some value ↦ value
  | none ↦ elim cond.gt [ none ↦ none | some value ↦ value ]
]

unfoldable pub meta_of : Correlation → Meta
unfolding threshold_of
meta_of c = record {
  kind = c.kind;
  group_by = elim c.group_by [ none ↦ [] | some fields ↦ fields ];
  timespan = c.timespan;
  threshold = threshold_of c.condition;
  value_field = c.condition.field;
}

-- `parse_correlation`: a document without a correlation is `none`.
unfoldable pub parse_correlation : List (Option Correlation) → Option Meta
unfolding meta_of
parse_correlation [] = none
parse_correlation (none ∷ docs) = parse_correlation docs
parse_correlation (some c ∷ docs) = some (meta_of c)

-- `_has`
unfoldable pub has_token : String → List String → Bool
unfolding is_in to_lower
has_token text tokens = any_of (λ tok. is_in (to_lower tok) (to_lower text)) tokens

-- The compiled query: one text or several.
pub data Output : Type 0 where
  one_text : String → Output
  texts : List String → Output

abbrev pub text_of : Output → String
text_of (one_text s) = s
text_of (texts ss) = join_words ss

-- The last part of a dotted name, in lower case, is in the text.
unfoldable pub names_field : String → String → Bool
unfolding is_in to_lower split
names_field text f = is_in (to_lower (last_of (split "." f))) (to_lower text)

-- `gb`
unfoldable pub group_by_fields : String → List String → Dict String Bool → Dict String Bool
unfolding names_field insert
group_by_fields text [] gb = gb
group_by_fields text (f ∷ fields) gb =
    group_by_fields text fields (insert f (names_field text f) gb)

-- `all(gb.values()) if gb else None`
unfoldable pub all_preserved : Dict String Bool → Option Bool
all_preserved [] = none
all_preserved (p ∷ gb) = some (all_of (λ (q : String × Bool). q.1) (p ∷ gb))

pub record Score : Type 0 where
  pub aggregation_found : Bool
  pub group_by_fields_found : Dict String Bool
  pub group_by_preserved : Option Bool
  pub time_window_found : Bool
  pub threshold_found : Option Bool
  pub value_field_distinct_found : Option Bool

unfoldable pub threshold_score : String → Option String → Option Bool
unfolding is_in has_token
threshold_score text none = none
threshold_score text (some value) = some (is_in value text && has_token text threshold_ops)

-- `meta["value_field"]`, where an empty one is as none
unfoldable pub named_field : Meta → Option String
named_field meta = elim meta.value_field [
  | none ↦ none
  | some f ↦ if is_blank f then none else some f
]

unfoldable pub distinct_score : String → Option String → Option Bool
unfolding has_token names_field
distinct_score text none = none
distinct_score text (some f) = some (has_token text distinct_tokens && names_field text f)

-- `score_correlation`
unfoldable pub score_correlation : Output → Meta → Score
unfolding has_token group_by_fields all_preserved threshold_score distinct_score named_field
score_correlation output meta =
    let text = text_of output in
    let gb = group_by_fields text meta.group_by [] in
    record {
      aggregation_found = has_token text agg_tokens;
      group_by_fields_found = gb;
      group_by_preserved = all_preserved gb;
      time_window_found = has_token text window_tokens;
      threshold_found = threshold_score text meta.threshold;
      value_field_distinct_found = distinct_score text (named_field meta);
    }

-- The elements that are scored.
pub data Element : Type 0 where
  aggregation value_field_distinct threshold time_window : Element

abbrev pub is_temporal : Option String → Bool
is_temporal none = false
is_temporal (some t) = t == "temporal" || t == "temporal_ordered"

abbrev pub counted_elements : Option String → List Element
counted_elements none = aggregation ∷ threshold ∷ time_window ∷ []
counted_elements (some f) = aggregation ∷ value_field_distinct ∷ threshold ∷ time_window ∷ []

-- `applicable_elements`
unfoldable pub applicable_elements : Meta → List Element
unfolding named_field
applicable_elements meta =
    if is_temporal meta.kind
    then aggregation ∷ time_window ∷ []
    else counted_elements (named_field meta)

-- `score.get(e) is True`
unfoldable pub is_preserved : Score → Element → Bool
is_preserved s aggregation = s.aggregation_found
is_preserved s time_window = s.time_window_found
is_preserved s threshold = elim s.threshold_found [ none ↦ false | some b ↦ b ]
is_preserved s value_field_distinct = elim s.value_field_distinct_found [
  | none ↦ false
  | some b ↦ b
]

-- `fidelity_fraction`
unfoldable pub fidelity_fraction : Score → Meta → ℕ × ℕ
unfolding is_preserved applicable_elements
fidelity_fraction s meta =
    let els = applicable_elements meta in (count_if (is_preserved s) els, length els)
