-- ===== src/Stream/Opened.antt =====
-- When the alerts file exists.
use sdw_lab_benchmarks.Prelude.{
  ℕ, true, ◌≡◌, refl, arith, ◌∙◌, Option, none, some, List, [], keys, contains, sort_by, List-cases,
  Option-cases, inl, inr, nat_eq,
}
use sdw_lab_benchmarks.Stream.Land.{Row}
use sdw_lab_benchmarks.Stream.Batch.{
  Group, Alert, Job, Disk, opened, load_state, start_job, new_windows, run_tick, round,
}
use sdw_lab_benchmarks.Stream.World.{
  World, Step, lands, boots, runs, dies, dies_emitting, Reach, here, next,
}
use sdw_lab_benchmarks.Stream.Candidates.{contains-new_windows}
use sdw_lab_benchmarks.Stream.Rounds.{old_window}

abbrev pub Exists : Option (List Alert) → Type 0
Exists file = file ≡ some (opened file)

-- A job that has processed a window has opened the file.
abbrev pub HasOpened : Job → Option (List Alert) → Type 0
HasOpened j file = (l : ℕ) → j.last_window_processed ≡ some l → Exists file

-- What a reachable state keeps.
pub record Opens (w : World) : Type 0 where
  pub job : (j : Job) → w.job ≡ some j → HasOpened j w.disk.out_file
  pub saved : (j : Job) → w.disk.state_file ≡ some j → HasOpened j w.disk.out_file

-- Nothing landed, nothing to land, no file.
pub record Idle (w : World) : Type 0 where
  pub pending : w.pending ≡ []
  pub in_dir : w.disk.in_dir ≡ []
  pub out_file : w.disk.out_file ≡ none

start_job-HasOpened :
    (d : Disk)
    → ((j : Job) → d.state_file ≡ some j → HasOpened j d.out_file)
    → HasOpened (start_job d) d.out_file
unfolding start_job
start_job-HasOpened d saved = elim (Option-cases d.state_file) [
  | inl e ↦ rw (e, load_state) (λ l h. absurd cc)
  | inr (j, e) ↦ rw (e, load_state) (saved j e)
]

no_new_windows :
    (j : Job) (d : Disk) → d.in_dir ≡ [] → new_windows j.last_window_processed d.in_dir ≡ []
unfolding sort_by
no_new_windows j d empty = rw empty refl

module _ (query : List (List Row) → List Group) where
  -- What a round leaves: its file is the old one or exists.
  round-HasOpened :
      (clock : ℕ → ℕ) (d : Disk) (j : Job)
      → HasOpened j d.out_file
      → HasOpened (round query clock d j).1 (round query clock d j).0.out_file
  unfolding round
  round-HasOpened clock d j h = elim (List-cases (new_windows j.last_window_processed d.in_dir)) [
    | inl e ↦ rw (e, run_tick) h
    | inr (w, ws, e) ↦ rw (e, run_tick) (λ l q. refl)
  ]

  round-saved :
      (clock : ℕ → ℕ) (d : Disk) (j : Job)
      → HasOpened j d.out_file
      → ((k : Job) → d.state_file ≡ some k → HasOpened k d.out_file)
      → (k : Job) → (round query clock d j).0.state_file ≡ some k
      → HasOpened k (round query clock d j).0.out_file
  unfolding round
  round-saved clock d j h saved = elim (List-cases (new_windows j.last_window_processed d.in_dir)) [
    | inl e ↦ rw (e, run_tick) (λ k q. saved k q)
    | inr (w, ws, e) ↦ rw (e, run_tick) (λ k q l p. refl)
  ]

  Step-Opens : {s t : World} → Step query s t → Opens s → Opens t
  Step-Opens (lands f rest p e) o = rw e (record { job = o.job; saved = o.saved })
  Step-Opens {s} (boots none_running e) o = rw e (record {
    job = λ j h. let q : start_job s.disk ≡ j = cc in rw (← q) (start_job-HasOpened s.disk o.saved);
    saved = o.saved;
  })
  Step-Opens {s} (runs clock j running e) o = rw e (record {
    job = λ j' h.
        let q : (round query clock s.disk j).1 ≡ j' = cc in
        rw (← q) (round-HasOpened clock s.disk j (o.job j running));
    saved = round-saved clock s.disk j (o.job j running) o.saved;
  })
  Step-Opens (dies e) o = rw e (record { job = λ j h. absurd cc; saved = o.saved })
  Step-Opens (dies_emitting clock j w ws n running new e) o =
      rw e (record { job = λ j' h. absurd cc; saved = λ j' h l p. refl })

  pub Reach-Opens : {s t : World} → Reach query s t → Opens s → Opens t
  Reach-Opens here o = o
  Reach-Opens (next r st) o = Step-Opens st (Reach-Opens r o)

  -- A round over a directory with a window leaves a file.
  pub round-Exists :
      (clock : ℕ → ℕ) (d : Disk) (j : Job) (v : ℕ)
      → contains (keys d.in_dir) v ≡ true
      → HasOpened j d.out_file
      → Exists (round query clock d j).0.out_file
  unfolding round contains
  round-Exists clock d j v there h =
      elim (List-cases (new_windows j.last_window_processed d.in_dir)) [
        | inl e ↦
            let found = contains-new_windows j.last_window_processed d.in_dir v in
            let found' = rw e at found in
            let (l, q, below) = old_window j.last_window_processed v (ground arith) in
            rw (e, run_tick) (h l q)
        | inr (w, ws, e) ↦ rw (e, run_tick) refl
      ]

  pub round-idle :
      (clock : ℕ → ℕ) (d : Disk) (j : Job)
      → d.in_dir ≡ []
      → ((round query clock d j).0.in_dir ≡ []) × ((round query clock d j).0.out_file ≡ d.out_file)
  unfolding round
  round-idle clock d j empty = rw (no_new_windows j d empty, run_tick) (empty, refl)

  Step-Idle : {s t : World} → Step query s t → Idle s → Idle t
  Step-Idle (lands f rest p e) i = absurd (let q = i.pending in cc)
  Step-Idle (boots none_running e) i =
      rw e (record { pending = i.pending; in_dir = i.in_dir; out_file = i.out_file })
  Step-Idle {s} (runs clock j running e) i =
      let kept = round-idle clock s.disk j i.in_dir in
      rw e (record { pending = i.pending; in_dir = kept.0; out_file = kept.1 ∙ i.out_file })
  Step-Idle (dies e) i =
      rw e (record { pending = i.pending; in_dir = i.in_dir; out_file = i.out_file })
  Step-Idle {s} (dies_emitting clock j w ws n running new e) i =
      absurd (let none_new = no_new_windows j s.disk i.in_dir in cc)

  pub Reach-Idle : {s t : World} → Reach query s t → Idle s → Idle t
  Reach-Idle here i = i
  Reach-Idle (next r st) i = Step-Idle st (Reach-Idle r i)
