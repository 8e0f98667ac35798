-- ===== src/Stream/World.antt =====
-- The batch arm at work: the collector lands files, the job runs rounds, and a crash can come at
-- any point, also between two alerts of a round, before its state is saved.
use sdw_lab_benchmarks.Prelude.{ℕ, ◌≡◌, Option, none, some, List, [], ◌∷◌, insert, nat_eq, take}
use sdw_lab_benchmarks.Stream.Land.{Row, WindowFile}
use sdw_lab_benchmarks.Stream.Batch.{
  Group, Alert, Job, Disk, start_job, new_windows, emit, begin_emit, scan_files, round,
}

pub record World : Type 0 where
  pub disk : Disk
  pub job : Option Job
  pub pending : List WindowFile

-- Nothing landed, no job started, the files of a replay to come.
abbrev pub initial : List WindowFile → World
initial files = record {
  disk = record { in_dir = []; out_file = none; state_file = none };
  job = none;
  pending = files;
}

module _ (query : List (List Row) → List Group) where
  -- The alerts file of a round that is killed after its first `n` groups.
  abbrev pub emitted_in_part : (ℕ → ℕ) → Disk → Job → ℕ → List ℕ → ℕ → List Alert
  emitted_in_part clock d j w ws n =
      (emit clock (begin_emit query clock d j)
        (take n (query (scan_files query clock d j w ws)))).out_file

  pub data Step (s t : World) : Type 0 where
    lands :
        (f : WindowFile) (rest : List WindowFile)
        → s.pending ≡ f ∷ rest
        → t ≡ record s {
          disk = record s.disk { in_dir = insert f.0 f.1 s.disk.in_dir };
          pending = rest;
        }
        → Step s t
    boots : s.job ≡ none → t ≡ record s { job = some (start_job s.disk) } → Step s t
    runs :
        (clock : ℕ → ℕ) (j : Job)
        → s.job ≡ some j
        → t ≡ record s {
          disk = (round query clock s.disk j).0;
          job = some (round query clock s.disk j).1;
        }
        → Step s t
    dies : t ≡ record s { job = none } → Step s t
    dies_emitting :
        (clock : ℕ → ℕ) (j : Job) (w : ℕ) (ws : List ℕ) (n : ℕ)
        → s.job ≡ some j
        → new_windows j.last_window_processed s.disk.in_dir ≡ w ∷ ws
        → t ≡ record s {
          disk = record s.disk { out_file = some (emitted_in_part clock s.disk j w ws n) };
          job = none;
        }
        → Step s t

  pub data Reach (s : World) : World → Type 0 where
    here : Reach s s
    next : {t u : World} → Reach s t → Step t u → Reach s u
