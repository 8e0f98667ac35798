-- ===== src/Stream/Compare.antt =====
-- The answer-equality gate, stream-complexity/compare_answers.py, on the batch arm, whose
-- `window_start` is an integer: `canonical_window_start` gives it back. An arm's file is `none`
-- where it does not exist.
use sdw_lab_benchmarks.Prelude.{
  ℕ, ◌+◌, Bool, true, false, not, ◌&&◌, Option, none, some, List, [], ◌∷◌, ◌++◌, map, Dict, keys,
  insert, contains, add, length, is_empty, set_difference, to_set, sort_by, ltb, nat_eq, string_eq,
  triple_eq, if◌then◌else◌,
}
use sdw_lab_benchmarks.Stream.Corpus.{Key, TruthAlert, truth_key, text_lt}
use sdw_lab_benchmarks.Stream.Batch.{Alert, alert_key}

-- The locals of `load_alert_keys`.
pub record Loaded : Type 0 where
  pub keys : List Key
  pub rows_by_key : Dict Key Alert
  pub duplicates : List Key
  pub n_rows : ℕ

abbrev pub nothing_loaded : Loaded
nothing_loaded = record { keys = []; rows_by_key = []; duplicates = []; n_rows = 0 }

-- the body of the loop over the lines
unfoldable pub load_row : Loaded → Alert → Loaded
unfolding contains add insert
load_row s row =
    let key = alert_key row in
    record {
      keys = add key s.keys;
      rows_by_key = insert key row s.rows_by_key;
      duplicates =
          if contains (keys s.rows_by_key) key then s.duplicates ++ key ∷ [] else s.duplicates;
      n_rows = s.n_rows + 1;
    }

unfoldable pub load_rows : Loaded → List Alert → Loaded
unfolding load_row
load_rows s [] = s
load_rows s (row ∷ rows) = load_rows (load_row s row) rows

unfoldable pub load_alert_keys : Option (List Alert) → Loaded
unfolding load_rows
load_alert_keys none = nothing_loaded
load_alert_keys (some rows) = load_rows nothing_loaded rows

unfoldable pub load_ground_truth_keys : List TruthAlert → List Key
unfolding to_set
load_ground_truth_keys alerts = to_set (map truth_key alerts) []

-- the order of the tuples
abbrev pub key_le : Key → Key → Bool
key_le (u, s, w) (u', s', w') =
    if text_lt u u'
    then true
    else if text_lt u' u
    then false
    else if text_lt s s'
    then true
    else if text_lt s' s
    then false
    else if ltb w' w
    then false
    else true

pub record Comparison : Type 0 where
  pub exists : Bool
  pub n_rows : ℕ
  pub n_distinct_keys : ℕ
  pub duplicate_keys : List Key
  pub n_ground_truth : ℕ
  pub missing : List Key
  pub extra : List Key
  pub identical : Bool

abbrev pub is_file : Option (List Alert) → Bool
is_file none = false
is_file (some rows) = true

unfoldable pub compare_arm : Option (List Alert) → List Key → Comparison
unfolding load_alert_keys set_difference sort_by
compare_arm file gt_keys =
    let s = load_alert_keys file in
    let missing = sort_by key_le (set_difference gt_keys s.keys) in
    let extra = sort_by key_le (set_difference s.keys gt_keys) in
    record {
      exists = is_file file;
      n_rows = s.n_rows;
      n_distinct_keys = length s.keys;
      duplicate_keys = s.duplicates;
      n_ground_truth = length gt_keys;
      missing = missing;
      extra = extra;
      identical = is_empty missing && is_empty extra && is_empty s.duplicates;
    }

-- The exit status of `main` with `--arm batch`.
unfoldable pub exit_status : Comparison → ℕ
exit_status r = if not r.exists then 1 else if not r.identical then 1 else 0
