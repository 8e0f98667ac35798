-- ===== src/Stream/Truth.antt =====
-- What the independent ground truth contains.
use sdw_lab_benchmarks.Prelude.{
  ℕ, ◌+◌, Bool, false, ◌&&◌, ◌≡◌, refl, ap, arith, ◌∙◌, none, some, List, [], ◌∷◌, map, Dict, keys,
  lookup, get_count, bump, get_count-bump, contains-keys-keep, keys-keep-IsDistinct,
  keys-bump-IsDistinct, Bool-cases, inl, inr, contains, IsDistinct, keep, count_if, leb,
  contains-sort_by, sort_by-IsDistinct, ◌==◌, nat_eq, string_eq, triple_eq,
}
use sdw_lab_benchmarks.Stream.Corpus.{
  Event, Key, failure_threshold, event_key, truth_key, tally, to_alert, alert_le,
  independent_ground_truth,
}

-- The event is a failure of the key.
abbrev pub is_failure_of : Key → Event → Bool
is_failure_of k e = (e.status == "failure") && (k == event_key e)

-- The failures of a key among the events.
abbrev pub failures : Key → List Event → ℕ
failures k events = count_if (is_failure_of k) events

get_count-tally :
    (k : Key) (events : List Event) (d : Dict Key ℕ)
    → get_count k (tally events d) ≡ get_count k d + failures k events
unfolding tally
get_count-tally k [] d = omega arith
get_count-tally k (e ∷ events) d = elim (Bool-cases (e.status == "failure")) [
  | inl f ↦
      rw (f, tally)
        (omega (
          arith,
          get_count-tally k events (bump (event_key e) d),
          get_count-bump (event_key e) k d,
        ))
  | inr f ↦ rw (f, tally) (omega (arith, get_count-tally k events d))
]

keys-tally-IsDistinct :
    (events : List Event) (d : Dict Key ℕ)
    → IsDistinct (keys d)
    → IsDistinct (keys (tally events d))
unfolding tally
keys-tally-IsDistinct [] d h = h
keys-tally-IsDistinct (e ∷ events) d h = elim (Bool-cases (e.status == "failure")) [
  | inl f ↦
      rw (f, tally)
        (keys-tally-IsDistinct events (bump (event_key e) d)
          (keys-bump-IsDistinct (event_key e) d h))
  | inr f ↦ rw (f, tally) (keys-tally-IsDistinct events d h)
]

truth_keys : (buckets : List (Key × ℕ)) → map truth_key (map to_alert buckets) ≡ keys buckets
truth_keys [] = refl
truth_keys (b ∷ buckets) = ap (◌∷◌ b.0) (truth_keys buckets)

abbrev pub is_alert : Key × ℕ → Bool
is_alert b = leb failure_threshold b.1

module _ (events : List Event) where
  distinct : IsDistinct (keys (tally events []))
  distinct = keys-tally-IsDistinct events [] tt

  counted :
      (k : Key)
      → (elim (lookup k (tally events [])) [ none ↦ false | some n ↦ leb failure_threshold n ])
        ≡ leb failure_threshold (failures k events)
  unfolding lookup
  counted k = ground (arith, get_count-tally k events [])

  -- A key is among the alerts of the ground truth exactly when the events hold at least five
  -- failures of its user and source address in its window.
  pub contains-independent_ground_truth :
      (k : Key)
      → contains (map truth_key (independent_ground_truth events)) k
        ≡ leb failure_threshold (failures k events)
  unfolding independent_ground_truth
  contains-independent_ground_truth k =
      contains-sort_by alert_le truth_key k (map to_alert (keep is_alert (tally events [])))
      ∙ rw (truth_keys (keep is_alert (tally events [])))
          (contains-keys-keep (leb failure_threshold) k (tally events []) distinct ∙ counted k)

  -- No two alerts of the ground truth have one key.
  pub ground_truth-IsDistinct : IsDistinct (map truth_key (independent_ground_truth events))
  unfolding independent_ground_truth
  ground_truth-IsDistinct =
      sort_by-IsDistinct alert_le truth_key (map to_alert (keep is_alert (tally events []))) (
        rw (truth_keys (keep is_alert (tally events [])))
          (keys-keep-IsDistinct (leb failure_threshold) (tally events []) distinct))
