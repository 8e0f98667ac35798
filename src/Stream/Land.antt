-- ===== src/Stream/Land.antt =====
-- The micro-batch collector, stream-complexity/batch/land_microbatches.py (`replay`, `_land`,
-- `_write_window_file`): it groups consecutive events of one window and writes a file for each
-- group. `clock n` is the wall clock at the n-th landing; the sleep that paces the replay is left
-- out, and so are the directory's file names: a file is its window number and its rows.
use sdw_lab_benchmarks.Prelude.{
  ℕ, ◌+◌, ◌/◌, Option, none, some, List, [], ◌∷◌, ◌++◌, map, length, ◌==◌, nat_eq, if◌then◌else◌,
}
use sdw_lab_benchmarks.Stream.Corpus.{Event, window_seconds}

pub record Row : Type 0 where
  pub event : Event
  pub ingest_wall_ts : ℕ

abbrev pub WindowFile : Type 0
WindowFile = ℕ × List Row

abbrev pub window_index : ℕ → ℕ
window_index t = t / window_seconds

-- The locals of `replay`, and the files that it has landed, in order.
pub record Replay : Type 0 where
  pub current_w : Option ℕ
  pub bucket : List Event
  pub files : List WindowFile
  pub n_events : ℕ

-- the loop of `_write_window_file`
abbrev pub stamp : ℕ → List Event → List Row
stamp now = map (λ (e : Event). record { event = e; ingest_wall_ts = now })

abbrev pub begin : Replay
begin = record { current_w = none; bucket = []; files = []; n_events = 0 }

module _ (clock : ℕ → ℕ) where
  unfoldable pub land : ℕ → List Event → List WindowFile → List WindowFile
  land w bucket files = files ++ (w, stamp (clock (length files)) bucket) ∷ []

  -- the body of the loop over the lines
  unfoldable pub replay_event : Replay → Event → Replay
  unfolding land
  replay_event s e =
      let w = window_index e.time in
      elim s.current_w [
        | none ↦ record {
          current_w = some w;
          bucket = s.bucket ++ e ∷ [];
          files = s.files;
          n_events = s.n_events + 1;
        }
        | some current ↦
            if w == current
            then record s { bucket = s.bucket ++ e ∷ []; n_events = s.n_events + 1 }
            else record {
              current_w = some w;
              bucket = e ∷ [];
              files = land current s.bucket s.files;
              n_events = s.n_events + 1;
            }
      ]

  unfoldable pub replay_events : Replay → List Event → Replay
  unfolding replay_event
  replay_events s [] = s
  replay_events s (e ∷ events) = replay_events (replay_event s e) events

  -- `if bucket:` after the loop
  unfoldable pub flush : Option ℕ → List Event → List WindowFile → List WindowFile
  unfolding land
  flush w [] files = files
  flush none (e ∷ bucket) files = files
  flush (some w) (e ∷ bucket) files = land w (e ∷ bucket) files

  -- The files that a replay lands; the source returns their number.
  unfoldable pub replay : List Event → List WindowFile
  unfolding replay_events flush
  replay events = let s = replay_events begin events in flush s.current_w s.bucket s.files
