-- ===== src/Portability/Fractions.antt =====
-- When a compiled query is scored as fully preserved.
use sdw_lab_benchmarks.Prelude.{
  ◌≡◌, ◌≢◌, refl, ap, ◌∙◌, arith, List, length, count_if, count_if-le-length, all_of, String, Bool,
  true, false, ◌&&◌, ◌||◌, Option, none, some, [], ◌∷◌, eqb, Bool-cases, Option-cases, inl, inr,
}
use sdw_lab_benchmarks.Prelude.Text.{is_in}
use sdw_lab_benchmarks.Portability.Fidelity.{
  agg_tokens, window_tokens, distinct_tokens, threshold_ops, has_token, names_field, text_of, Meta,
  Output, Score, aggregation, threshold, time_window, value_field_distinct, named_field,
  is_temporal, applicable_elements, is_preserved, threshold_score, distinct_score,
  score_correlation, fidelity_fraction,
}

-- What a compiled query has to show: tokens of an aggregation and of a time window, and where the
-- rule is not temporal its threshold beside an operator, and the field of a distinct count beside a
-- distinct operator where the rule names one.
abbrev shows_threshold : String → Option String → Bool
shows_threshold text none = false
shows_threshold text (some value) = is_in value text && has_token text threshold_ops

abbrev shows_distinct : String → Option String → Bool
shows_distinct text none = true
shows_distinct text (some f) = has_token text distinct_tokens && names_field text f

abbrev pub shows_all : String → Meta → Bool
shows_all text meta =
    has_token text agg_tokens
    && has_token text window_tokens
    && (is_temporal meta.kind
        || (shows_threshold text meta.threshold && shows_distinct text (named_field meta)))

-- All elements are counted exactly when each is preserved.
all_counted {ℓ} :
    {A : Type ℓ} (p : A → Bool) (xs : List A) → eqb (count_if p xs) (length xs) ≡ all_of p xs
all_counted p [] = refl
all_counted p (x ∷ xs) = ground (arith, all_counted p xs, count_if-le-length p xs)

threshold_found :
    (s : Score) (text : String) (t : Option String)
    → s.threshold_found ≡ threshold_score text t
    → is_preserved s threshold ≡ shows_threshold text t
unfolding is_preserved threshold_score
threshold_found s text none e = rw e refl
threshold_found s text (some value) e = rw e refl

distinct_found :
    (s : Score) (text f : String)
    → s.value_field_distinct_found ≡ distinct_score text (some f)
    → is_preserved s value_field_distinct ≡ shows_distinct text (some f)
unfolding is_preserved distinct_score
distinct_found s text f e = rw e refl

two_found : (a w rest : Bool) → (a && (w && true)) ≡ (a && w && (true || rest))
two_found a w rest = ground arith

three_found : (a t w : Bool) → (a && (t && (w && true))) ≡ (a && w && (false || (t && true)))
three_found a t w = ground arith

four_found : (a d t w : Bool) → (a && (d && (t && (w && true)))) ≡ (a && w && (false || (t && d)))
four_found a d t w = ground arith

preserved_elements :
    (output : Output) (meta : Meta)
    → all_of (is_preserved (score_correlation output meta)) (applicable_elements meta)
      ≡ shows_all (text_of output) meta
unfolding applicable_elements
preserved_elements output meta =
    let s = score_correlation output meta in
    let text = text_of output in
    let agg : is_preserved s aggregation ≡ has_token text agg_tokens =
      (unfold is_preserved score_correlation in refl) in
    let window : is_preserved s time_window ≡ has_token text window_tokens =
      (unfold is_preserved score_correlation in refl) in
    let t = threshold_found s text meta.threshold (unfold score_correlation in refl) in
    elim (Bool-cases (is_temporal meta.kind)) [
      | inl temporal ↦ rw (temporal, agg, window) (two_found _ _ true)
      | inr counted ↦ elim (Option-cases (named_field meta)) [
        | inl unnamed ↦
            rw (counted, unnamed, agg, window, t)
              (three_found (has_token text agg_tokens) (shows_threshold text meta.threshold)
                (has_token text window_tokens))
        | inr (f, named) ↦
            let d =
              distinct_found s text f
                (unfold score_correlation in ap (distinct_score text) named) in
            rw (counted, named, agg, window, t, d)
              (four_found (has_token text agg_tokens) (shows_distinct text (some f))
                (shows_threshold text meta.threshold) (has_token text window_tokens))
      ]
    ]

-- A compiled query is scored as fully preserved exactly when it shows each element of its rule: an
-- aggregation, a time window, and where the rule is not temporal its threshold beside an operator,
-- and the field of a distinct count where the rule names one.
pub full_when_shown :
    (output : Output) (meta : Meta)
    → eqb
        (fidelity_fraction (score_correlation output meta) meta).0
        (fidelity_fraction (score_correlation output meta) meta).1
      ≡ shows_all (text_of output) meta
unfolding fidelity_fraction
full_when_shown output meta =
    all_counted (is_preserved (score_correlation output meta)) (applicable_elements meta)
    ∙ preserved_elements output meta

-- A rule that is not temporal and names no `gte` or `gt` is never scored as fully preserved, whatever
-- the query: its threshold is scored and cannot be found.
pub no_threshold_not_full :
    (output : Output) (meta : Meta)
    → is_temporal meta.kind ≡ false
    → meta.threshold ≡ none
    → (fidelity_fraction (score_correlation output meta) meta).0
      ≢ (fidelity_fraction (score_correlation output meta) meta).1
no_threshold_not_full output meta counted missing full =
    let shown = full_when_shown output meta in
    let nothing_shown : shows_all (text_of output) meta ≡ false =
      rw (counted, missing) (ground arith) in
    absurd (ground (arith, full))
