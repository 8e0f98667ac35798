-- ===== src/Stream/Answers.antt =====
-- When the alerts file agrees with a corpus, and what the job's state says of the file.
use sdw_lab_benchmarks.Prelude.{
  ℕ, ◌≤◌, Bool, true, ◌≡◌, arith, Option, some, List, contains, leb, nat_eq, string_eq, triple_eq,
}
use sdw_lab_benchmarks.Stream.Corpus.{Event, Key, failure_threshold}
use sdw_lab_benchmarks.Stream.Truth.{failures}
use sdw_lab_benchmarks.Stream.Land.{Row}
use sdw_lab_benchmarks.Stream.Batch.{Group, Alert, Job}
use sdw_lab_benchmarks.Stream.Once.{alert_keys}
use sdw_lab_benchmarks.Stream.Windows.{key_window, failures_in}
use sdw_lab_benchmarks.Stream.Emission.{SameKeys, group_keys}

-- The grouping query of `run_tick`, as DuckDB answers it: the keys of its rows are those with at
-- least `failure_threshold` failures among the rows of the files.
pub record GroupingEngine : Type 0 where
  pub query : List (List Row) → List Group
  pub groups :
      (files : List (List Row)) (k : Key)
      → contains (group_keys (query files)) k ≡ leb failure_threshold (failures_in k files)

abbrev pub Grows : List Alert → List Alert → Type 0
Grows out out' =
    (k : Key) → contains (alert_keys out) k ≡ true → contains (alert_keys out') k ≡ true

module _ (es : List Event) where
  -- The key is an alert of the corpus.
  abbrev pub is_due : Key → Bool
  is_due k = leb failure_threshold (failures k es)

  -- Every alert in the file is due.
  abbrev pub IsSoundFile : List Alert → Type 0
  IsSoundFile out = (k : Key) → contains (alert_keys out) k ≡ true → is_due k ≡ true

  -- Every due key of a window up to the last one processed has its alert.
  abbrev pub Covers : Option ℕ → List Alert → Type 0
  Covers last out =
      (l : ℕ)
      → last ≡ some l
      → (k : Key) → key_window k ≤ l
      → is_due k ≡ true
      → contains (alert_keys out) k ≡ true

  -- A job, or the state saved for one, agrees with the alerts file.
  pub record IsCurrent (j : Job) (out : List Alert) : Type 0 where
    pub same : SameKeys out j.seen_keys
    pub covers : Covers j.last_window_processed out

  -- A saved state may be older than the file.
  pub record IsPast (j : Job) (out : List Alert) : Type 0 where
    pub seen : (k : Key) → contains j.seen_keys k ≡ true → contains (alert_keys out) k ≡ true
    pub covers : Covers j.last_window_processed out

  pub IsPast-Grows :
      (j : Job) (out out' : List Alert) → Grows out out' → IsPast j out → IsPast j out'
  IsPast-Grows j out out' grows p = record {
    seen = λ k h. grows k (p.seen k h);
    covers = λ l e k le due. grows k (p.covers l e k le due);
  }

  pub IsPast-of_IsCurrent : (j : Job) (out : List Alert) → IsCurrent j out → IsPast j out
  IsPast-of_IsCurrent j out c = record { seen = λ k h. ground (arith, c.same k); covers = c.covers }
