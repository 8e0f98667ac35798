-- ===== src/Stream/Corpus.antt =====
-- The events and the independent ground truth of stream-complexity/gen_corpus.py
-- (`independent_ground_truth`). Times are epoch seconds, never negative.
use sdw_lab_benchmarks.Prelude.{
  ℕ, ◌*◌, ◌/◌, String, Bool, true, false, List, [], ◌∷◌, map, Dict, bump, keep, leb, ltb, sort_by,
  ◌==◌, nat_eq, string_eq, triple_eq, if◌then◌else◌,
}
use Prim.Native.String.{compare as compare_text}
use Prim.Native.Nat.{Ordering}

abbrev pub window_seconds : ℕ
window_seconds = 60

abbrev pub failure_threshold : ℕ
failure_threshold = 5

pub record Event : Type 0 where
  pub event_uid : String
  pub time : ℕ
  pub user : String
  pub src_ip : String
  pub status : String

-- (user, src_ip, window_start)
abbrev pub Key : Type 0
Key = String × String × ℕ

abbrev pub window_start : ℕ → ℕ
window_start t = (t / window_seconds) * window_seconds

abbrev pub event_key : Event → Key
event_key e = (e.user, e.src_ip, window_start e.time)

pub record TruthAlert : Type 0 where
  pub user : String
  pub src_ip : String
  pub window_start : ℕ
  pub failure_count : ℕ

abbrev pub truth_key : TruthAlert → Key
truth_key a = (a.user, a.src_ip, a.window_start)

-- the loop that fills `buckets`
unfoldable pub tally : List Event → Dict Key ℕ → Dict Key ℕ
tally [] buckets = buckets
tally (e ∷ events) buckets =
    tally events (if e.status == "failure" then bump (event_key e) buckets else buckets)

abbrev pub to_alert : Key × ℕ → TruthAlert
to_alert (k, c) = record { user = k.0; src_ip = k.1; window_start = k.2; failure_count = c }

-- `str` comparison, by code points
abbrev pub text_lt : String → String → Bool
text_lt s t = elim (compare_text s t) [ Ordering.lt ↦ true | _ ↦ false ]

-- the order of `(window_start, user, src_ip)`
abbrev pub alert_le : TruthAlert → TruthAlert → Bool
alert_le a b =
    if ltb a.window_start b.window_start
    then true
    else if ltb b.window_start a.window_start
    then false
    else if text_lt a.user b.user
    then true
    else if text_lt b.user a.user
    then false
    else if text_lt b.src_ip a.src_ip
    then false
    else true

unfoldable pub independent_ground_truth : List Event → List TruthAlert
unfolding tally
independent_ground_truth events =
    let buckets = tally events [] in
    sort_by alert_le (map to_alert (keep (λ (b : Key × ℕ). leb failure_threshold b.1) buckets))
