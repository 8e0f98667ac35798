-- ===== src/SemanticQuery/Scoring.antt =====
-- `classify` of ocsf-semantic-query/scoring.py. A kind comes with the truth that it is scored against.
use Prim.Native.String.{[], ◌∷◌}
use sdw_lab_benchmarks.Prelude.{
  ℕ, suc, ◌*◌, String, Bool, true, false, ◌&&◌, ◌||◌, Option, none, some, List, Dict, ◌==◌, lookup,
  length, count_if, any_of, all_of, contains, add, to_set, leb, ltb, if◌then◌else◌, string_eq,
}
use sdw_lab_benchmarks.Prelude.Text.{is_in, starts_with}
use sdw_lab_benchmarks.Prelude.Edits.{is_blank, join_words, to_lower}
use sdw_lab_benchmarks.SemanticQuery.Numbers.{ℤ, pos, distance, same_number, numbers_of}

pub data Outcome : Type 0 where
  correct silent : Outcome

-- `STAGE_KEYWORDS`
abbrev pub stage_keywords : Dict String String
stage_keywords =
    List.◌∷◌ ("stage0_oauth", "oauth")
      (List.◌∷◌ ("stage1_powershell", "powershell")
        (List.◌∷◌ ("stage2_beacon", "beacon")
          (List.◌∷◌ ("stage3_lateral_conn", "lateral")
            (List.◌∷◌ ("stage4_nomfa", "mfa")
              (List.◌∷◌ ("stage5_assumerole", "assumerole")
                (List.◌∷◌ ("stage6_exfil", "exfil") List.[]))))))

-- `DWELL_TOLERANCE_SEC`
abbrev pub dwell_tolerance_sec : ℕ
dwell_tolerance_sec = 60

-- The truth of a count: the things counted, or their number.
pub data Counted : Type 0 where
  things : List String → Counted
  number : ℤ → Counted

-- An entry of `assets`
pub record Asset : Type 0 where
  pub hostname : Option String
  pub ip : Option String
  pub instance_id : Option String

-- A value of `truth_identity_links`
pub data Link : Type 0 where
  one_id : String → Link
  assets : List Asset → Link
  other_link : Link

-- A kind of question with its truth.
pub data Question : Type 0 where
  substring uid : String → Question
  uidset : List String → Question
  count : Counted → Question
  scalar exact_scalar : ℤ → Question
  order : List String → Question
  set : Dict String Link → Question
  other_kind : Question

-- `ids.add(str(a[ak]))` if `a.get(ak)`
abbrev add_part : Option String → List String → List String
add_part none ids = ids
add_part (some v) ids = if is_blank v then ids else add v ids

abbrev add_assets : List Asset → List String → List String
add_assets List.[] ids = ids
add_assets (List.◌∷◌ a more) ids =
    add_assets more (add_part a.instance_id (add_part a.ip (add_part a.hostname ids)))

abbrev add_identity : String → Link → List String → List String
add_identity k (one_id v) ids = add v ids
add_identity k (assets more) ids = if k == "assets" then add_assets more ids else ids
add_identity k other_link ids = ids

unfoldable identity_strings_onto : Dict String Link → List String → List String
unfolding add
identity_strings_onto List.[] ids = ids
identity_strings_onto (List.◌∷◌ (k, v) links) ids =
    identity_strings_onto links (add_identity k v ids)

-- `_identity_strings`
unfoldable pub identity_strings : Dict String Link → List String
unfolding identity_strings_onto
identity_strings links = identity_strings_onto links List.[]

-- `text.find(kw)`, where -1 is `none`
unfoldable pub find : String → String → Option ℕ
unfolding starts_with
find [] kw = if starts_with [] kw then some 0 else none
find (c ∷ s) kw =
    let rest = find s kw in
    if starts_with (c ∷ s) kw then some 0 else elim rest [ none ↦ none | some n ↦ some (suc n) ]

-- `[STAGE_KEYWORDS[s] for s in truth]`: a label that is not known is a KeyError, `none`.
unfoldable pub keywords_of : List String → Option (List String)
unfolding lookup
keywords_of List.[] = some List.[]
keywords_of (List.◌∷◌ label labels) = elim (lookup label stage_keywords) [
  | none ↦ none
  | some kw ↦ elim (keywords_of labels) [ none ↦ none | some kws ↦ some (List.◌∷◌ kw kws) ]
]

-- Two positions that follow on each other, both found, and in this order.
abbrev is_before : Option ℕ → Option ℕ → Bool
is_before none q = false
is_before (some m) none = false
is_before (some m) (some n) = ltb m n

abbrev is_found : Option ℕ → Bool
is_found none = false
is_found (some n) = true

-- Every keyword is found, each before the next.
unfoldable pub in_order : String → List String → Bool
unfolding find
in_order text List.[] = true
in_order text (List.◌∷◌ kw List.[]) = is_found (find text kw)
in_order text (List.◌∷◌ kw (List.◌∷◌ next kws)) =
    is_before (find text kw) (find text next) && in_order text (List.◌∷◌ next kws)

abbrev pub outcome_if : Bool → Outcome
outcome_if true = correct
outcome_if false = silent

-- `len(got) >= 0.5 * len(truth_set) and len(flat) <= 4 * len(truth_set)`
unfoldable pub majority_kept : List String → List String → Bool
unfolding contains to_set
majority_kept truth_set flat =
    leb (length truth_set) (2 * count_if (contains flat) truth_set)
    && leb (length flat) (4 * length truth_set)

abbrev count_target : Counted → ℤ
count_target (things ts) = pos (length ts)
count_target (number n) = n

-- `classify`, where a KeyError is `none`
unfoldable pub classify : Question → List String → ℕ → Option Outcome
unfolding is_in contains to_set numbers_of distance same_number identity_strings keywords_of
    in_order majority_kept to_lower
classify (substring truth) flat dwell_tolerance = some (outcome_if (any_of (is_in truth) flat))
classify (uid truth) flat dwell_tolerance = some (outcome_if (contains flat truth))
classify (uidset truth) flat dwell_tolerance =
    some (outcome_if (majority_kept (to_set truth List.[]) flat))
classify (count truth) flat dwell_tolerance =
    let target = count_target truth in
    some (
      outcome_if
        (any_of (same_number target) (numbers_of flat) || same_number (pos (length flat)) target))
classify (scalar target) flat dwell_tolerance =
    some (outcome_if (any_of (λ n. leb (distance n target) dwell_tolerance) (numbers_of flat)))
classify (exact_scalar target) flat dwell_tolerance =
    some (outcome_if (any_of (same_number target) (numbers_of flat)))
classify (order truth) flat dwell_tolerance = elim (keywords_of truth) [
  | none ↦ none
  | some seq ↦ some (outcome_if (in_order (to_lower (join_words flat)) seq))
]
classify (set truth) flat dwell_tolerance =
    some (outcome_if (all_of (λ i. any_of (is_in i) flat) (identity_strings truth)))
classify other_kind flat dwell_tolerance = some silent
