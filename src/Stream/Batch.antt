-- ===== src/Stream/Batch.antt =====
-- The scheduled job, stream-complexity/batch/batch_job.py. The directory is the dict
-- `windows_present` that a tick builds from the file names. DuckDB's run of the grouping query is
-- the parameter `query`; `clock n` is the wall clock at the n-th alert of a tick.
use sdw_lab_benchmarks.Prelude.{
  ℕ, zero, suc, ◌+◌, String, Bool, true, Option, none, some, List, [], ◌∷◌, ◌++◌, map, Dict, keys,
  lookup, contains, add, length, keep, leb, ltb, sort_by, ◌==◌, nat_eq, string_eq, triple_eq,
  if◌then◌else◌,
}
use sdw_lab_benchmarks.Stream.Corpus.{Key}
use sdw_lab_benchmarks.Stream.Land.{Row}

-- A row of the query's result.
pub record Group : Type 0 where
  pub user : String
  pub src_ip : String
  pub window_start : ℕ
  pub failure_count : ℕ
  pub last_ingest_wall_ts : ℕ

abbrev pub group_key : Group → Key
group_key g = (g.user, g.src_ip, g.window_start)

-- A line of the alerts file.
pub record Alert : Type 0 where
  pub user : String
  pub src_ip : String
  pub window_start : ℕ
  pub failure_count : ℕ
  pub last_ingest_wall_ts : ℕ
  pub alert_emit_wall_ts : ℕ

abbrev pub alert_key : Alert → Key
alert_key a = (a.user, a.src_ip, a.window_start)

abbrev pub Directory : Type 0
Directory = Dict ℕ (List Row)

-- The locals of the job's loop.
pub record Job : Type 0 where
  pub last_window_processed : Option ℕ
  pub seen_keys : List Key

-- What survives a crash: the alerts file, `none` where it does not exist, and the state file.
pub record Disk : Type 0 where
  pub in_dir : Directory
  pub out_file : Option (List Alert)
  pub state_file : Option Job

unfoldable pub load_state : Option Job → Job
load_state (some s) = s
load_state none = record { last_window_processed = none; seen_keys = [] }

-- the loop over the lines of the file
unfoldable pub reload_lines : List Alert → List Key → List Key
reload_lines [] seen = seen
reload_lines (a ∷ out) seen = reload_lines out (add (alert_key a) seen)

unfoldable pub reload_seen_from_output : Option (List Alert) → List Key → List Key
unfolding reload_lines
reload_seen_from_output none seen = seen
reload_seen_from_output (some out) seen = reload_lines out seen

-- What a file holds when it is opened to append: one that does not exist is made, empty.
abbrev pub opened : Option (List Alert) → List Alert
opened none = []
opened (some out) = out

-- The start of `main`: `seen_keys |= reload_seen_from_output(out_file)`.
unfoldable pub start_job : Disk → Job
unfolding load_state reload_seen_from_output
start_job d =
    let s = load_state d.state_file in
    record s { seen_keys = reload_seen_from_output d.out_file s.seen_keys }

-- `last is None or w > last`
abbrev pub is_new : Option ℕ → ℕ → Bool
is_new none w = true
is_new (some last) w = ltb last w

abbrev pub new_windows : Option ℕ → Directory → List ℕ
new_windows last dir = sort_by leb (keep (is_new last) (keys dir))

-- `max(ws)` over `m` and the windows `ws`
abbrev pub max_from : ℕ → List ℕ → ℕ
max_from m [] = m
max_from m (w ∷ ws) = max_from (if ltb m w then w else m) ws

-- `min(new_windows) - 1`, a window of the directory only if the least new window is not 0
abbrev pub lookback : ℕ → Option ℕ
lookback zero = none
lookback (suc w) = some w

-- The candidates, where `w ∷ ws` are the new windows in order.
unfoldable pub candidates : Option ℕ → Directory → ℕ → List ℕ → List ℕ
candidates none dir w ws = w ∷ ws
candidates (some last) dir w ws = elim (lookback w) [
  | none ↦ w ∷ ws
  | some back ↦ if contains (keys dir) back then add back (w ∷ ws) else w ∷ ws
]

-- `windows_present[w]`, for a window that is there
unfoldable pub rows_of : Directory → ℕ → List Row
rows_of dir w = elim (lookup w dir) [ none ↦ [] | some rows ↦ rows ]

unfoldable pub to_record : ℕ → Group → Alert
to_record now g = record {
  user = g.user;
  src_ip = g.src_ip;
  window_start = g.window_start;
  failure_count = g.failure_count;
  last_ingest_wall_ts = g.last_ingest_wall_ts;
  alert_emit_wall_ts = now;
}

-- The open alerts file, the keys seen and the number of new alerts, as the loop over the rows leaves
-- them. The append and its `fsync` are one step: no line is written in part.
pub record Emitted : Type 0 where
  pub out_file : List Alert
  pub seen_keys : List Key
  pub n_new_alerts : ℕ

module _ (clock : ℕ → ℕ) where
  unfoldable pub emit_group : Emitted → Group → Emitted
  unfolding to_record
  emit_group s g = if contains s.seen_keys (group_key g) then s else record {
    out_file = s.out_file ++ to_record (clock s.n_new_alerts) g ∷ [];
    seen_keys = add (group_key g) s.seen_keys;
    n_new_alerts = s.n_new_alerts + 1;
  }

  unfoldable pub emit : Emitted → List Group → Emitted
  unfolding emit_group
  emit s [] = s
  emit s (g ∷ groups) = emit (emit_group s g) groups

-- The outcome of a tick.
pub record Tick : Type 0 where
  pub last_window_processed : Option ℕ
  pub out_file : Option (List Alert)
  pub seen_keys : List Key
  pub n_new_alerts : ℕ
  pub n_files : ℕ

module _ (query : List (List Row) → List Group) (clock : ℕ → ℕ) where
  abbrev pub begin_emit : Disk → Job → Emitted
  begin_emit d j = record {
    out_file = opened d.out_file;
    seen_keys = j.seen_keys;
    n_new_alerts = 0;
  }

  abbrev pub scan_files : Disk → Job → ℕ → List ℕ → List (List Row)
  scan_files d j w ws =
      map (rows_of d.in_dir) (sort_by leb (candidates j.last_window_processed d.in_dir w ws))

  -- where there are new windows
  unfoldable pub scan : Disk → Job → ℕ → List ℕ → Tick
  unfolding candidates emit
  scan d j w ws =
      let files = scan_files d j w ws in
      let e = emit clock (begin_emit d j) (query files) in
      record {
        last_window_processed =
            some (max_from w (candidates j.last_window_processed d.in_dir w ws));
        out_file = some e.out_file;
        seen_keys = e.seen_keys;
        n_new_alerts = e.n_new_alerts;
        n_files = length files;
      }

  unfoldable pub run_tick : Disk → Job → Tick
  unfolding scan
  run_tick d j = elim (new_windows j.last_window_processed d.in_dir) [
    | [] ↦ record {
      last_window_processed = j.last_window_processed;
      out_file = d.out_file;
      seen_keys = j.seen_keys;
      n_new_alerts = 0;
      n_files = 0;
    }
    | w ∷ ws ↦ scan d j w ws
  ]

  -- One round of the loop in `main`: a tick, and the state is saved if it scanned a file.
  unfoldable pub round : Disk → Job → Disk × Job
  unfolding run_tick
  round d j =
      let t = run_tick d j in
      let j' : Job = record {
        last_window_processed = t.last_window_processed;
        seen_keys = t.seen_keys;
      } in
      (
        record d {
          out_file = t.out_file;
          state_file = if t.n_files == 0 then d.state_file else some j';
        },
        j',
      )
