-- ===== src/SemanticQuery/Tests.antt =====
-- Questions over the planted attack chain, and answers to them.
use sdw_lab_benchmarks.Prelude.{String, ◌≡◌, refl, none, some, List, [], ◌∷◌, Dict}
use sdw_lab_benchmarks.SemanticQuery.Numbers.{pos}
use sdw_lab_benchmarks.SemanticQuery.Scoring.{
  Asset, Link, one_id, assets, uidset, count, things, scalar, order, set, correct, silent, classify,
  dwell_tolerance_sec,
}
use sdw_lab_benchmarks.SemanticQuery.Longer.{longer_correct}

abbrev asset : Asset
asset = record { hostname = some "ws-1"; ip = none; instance_id = some "i-0a" }

abbrev identity_links : Dict String Link
identity_links = ("account", one_id "1234") ∷ ("assets", assets (asset ∷ [])) ∷ []

abbrev answer : List String
answer = "host ws-1 (i-0a)" ∷ "account 1234" ∷ []

stages_in_order :
    classify
      (order ("stage0_oauth" ∷ "stage6_exfil" ∷ []))
      ("OAuth grant" ∷ "then exfil" ∷ [])
      dwell_tolerance_sec
    ≡ some correct
unfolding classify
stages_in_order = refl

unknown_stage : classify (order ("stage9" ∷ [])) ("oauth" ∷ []) dwell_tolerance_sec ≡ none
unfolding classify
unknown_stage = refl

half_recovered :
    classify (uidset ("a" ∷ "b" ∷ "a" ∷ [])) ("b" ∷ "c" ∷ []) dwell_tolerance_sec ≡ some correct
unfolding classify
half_recovered = refl

counted : classify (count (things ("a" ∷ "b" ∷ []))) ("2" ∷ []) dwell_tolerance_sec ≡ some correct
unfolding classify
counted = refl

dwell_too_long : classify (scalar (pos 600)) ("661 s" ∷ []) dwell_tolerance_sec ≡ some silent
unfolding classify
dwell_too_long = refl

identities_recovered : classify (set identity_links) answer dwell_tolerance_sec ≡ some correct
unfolding classify
identities_recovered = refl

longer_correct_example :
    classify
      (set identity_links)
      ("host ws-1 (i-0a)" ∷ "account 1234" ∷ "noise" ∷ [])
      dwell_tolerance_sec
    ≡ some correct
longer_correct_example =
    longer_correct (set identity_links) answer ("noise" ∷ []) dwell_tolerance_sec refl
      identities_recovered
