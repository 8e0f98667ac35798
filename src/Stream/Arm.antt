-- ===== src/Stream/Arm.antt =====
-- The batch arm gives the alerts of the ground truth: no key without its five failures, and every
-- one of them once all files are scanned.
use sdw_lab_benchmarks.Prelude.{
  ℕ, Bool, true, false, ◌≡◌, ◌⊎◌, refl, arith, ◌∙◌, sym, none, some, List, [], ◌∷◌, ◌++◌, take,
  contains, insert, insert_new, Option-cases, List-cases, inl, inr, if◌then◌else◌, nat_eq,
  string_eq, triple_eq,
}
use sdw_lab_benchmarks.Stream.Corpus.{Event}
use sdw_lab_benchmarks.Stream.Land.{WindowFile}
use sdw_lab_benchmarks.Stream.Landed.{IsReplayOf}
use sdw_lab_benchmarks.Stream.Batch.{
  Job, Disk, load_state, opened, start_job, new_windows, begin_emit, scan_files, run_tick, round,
}
use sdw_lab_benchmarks.Stream.World.{
  World, Step, lands, boots, runs, dies, dies_emitting, emitted_in_part, Reach, here, next,
}
use sdw_lab_benchmarks.Stream.Once.{contains-reload}
use sdw_lab_benchmarks.Stream.Emission.{emit-SameKeys, contains-take}
use sdw_lab_benchmarks.Stream.Prefix.{next_file-fresh}
use sdw_lab_benchmarks.Stream.Answers.{
  GroupingEngine, Grows, IsSoundFile, IsCurrent, IsPast, IsPast-Grows, IsPast-of_IsCurrent,
}
use mathlib.Core.List.{append_assoc}
use sdw_lab_benchmarks.Stream.Rounds.{part_sound, part-Grows, scan_covers}

if_either {ℓ} :
    {A : Type ℓ} (b : Bool) (x y : A) → ((if b then x else y) ≡ x) ⊎ ((if b then x else y) ≡ y)
if_either true x y = inl refl
if_either false x y = inr refl

module _ (db : GroupingEngine) (es : List Event) where
  -- What a round leaves.
  pub record AfterRound (d : Disk) (d' : Disk) (j' : Job) : Type 0 where
    pub sound : IsSoundFile es (opened d'.out_file)
    pub grows : Grows (opened d.out_file) (opened d'.out_file)
    pub current : IsCurrent es j' (opened d'.out_file)
    pub in_dir : d'.in_dir ≡ d.in_dir
    pub state : (d'.state_file ≡ d.state_file) ⊎ (d'.state_file ≡ some j')

  pub round-AfterRound :
      (clock : ℕ → ℕ) (d : Disk) (j : Job) (pending : List WindowFile)
      → IsReplayOf es (d.in_dir ++ pending)
      → IsSoundFile es (opened d.out_file)
      → IsCurrent es j (opened d.out_file)
      → AfterRound d (round db.query clock d j).0 (round db.query clock d j).1
  unfolding round
  round-AfterRound clock d j pending r sound cur =
      elim (List-cases (new_windows j.last_window_processed d.in_dir)) [
        | inl e ↦
            rw (e, run_tick)
              (record {
                sound = sound;
                grows = λ k h. h;
                current = record { same = cur.same; covers = cur.covers };
                in_dir = refl;
                state = inl refl;
              })
        | inr (w, ws, e) ↦
            rw (e, run_tick)
              (record {
                sound =
                    part_sound db es clock d j pending w ws
                      (db.query (scan_files db.query clock d j w ws)) r e sound cur.same (λ k h. h);
                grows =
                    part-Grows db es clock d j (db.query (scan_files db.query clock d j w ws))
                      cur.same;
                current = record {
                  same =
                      emit-SameKeys clock (begin_emit db.query clock d j)
                        (db.query (scan_files db.query clock d j w ws)) cur.same;
                  covers = λ l m k le due.
                      scan_covers db es clock d j pending w ws r e cur k (ground arith) due;
                };
                in_dir = refl;
                state = if_either _ _ _;
              })
      ]

  -- What a reachable state keeps.
  pub record Tracks (w : World) : Type 0 where
    pub replay : IsReplayOf es (w.disk.in_dir ++ w.pending)
    pub sound : IsSoundFile es (opened w.disk.out_file)
    pub job : (j : Job) → w.job ≡ some j → IsCurrent es j (opened w.disk.out_file)
    pub saved : (j : Job) → w.disk.state_file ≡ some j → IsPast es j (opened w.disk.out_file)

  lands-Tracks :
      (w : World) (f : WindowFile) (rest : List WindowFile)
      → w.pending ≡ f ∷ rest
      → Tracks w
      → Tracks (record w {
        disk = record w.disk { in_dir = insert f.0 f.1 w.disk.in_dir };
        pending = rest;
      })
  lands-Tracks w f rest p t =
      let landed : IsReplayOf es (w.disk.in_dir ++ f ∷ rest) = rw p at t.replay in
      let fresh = next_file-fresh es w.disk.in_dir f rest landed in
      let grown = insert_new f.0 f.1 w.disk.in_dir fresh in
      record {
        replay = rw (grown, append_assoc) landed;
        sound = t.sound;
        job = λ j e. t.job j e;
        saved = λ j e. t.saved j e;
      }

  start_job-IsCurrent :
      (w : World) → Tracks w → IsCurrent es (start_job w.disk) (opened w.disk.out_file)
  unfolding contains
  start_job-IsCurrent w t = elim (Option-cases w.disk.state_file) [
    | inl e ↦
        unfold start_job in
        rw (e, load_state)
          (record {
            same = λ k. ground (arith, contains-reload k w.disk.out_file []);
            covers = λ l h k le due. absurd cc;
          })
    | inr (j, e) ↦
        let past = t.saved j e in
        unfold start_job in
        rw (e, load_state)
          (record {
            same = λ k. ground (arith, contains-reload k w.disk.out_file j.seen_keys, past.seen k);
            covers = past.covers;
          })
  ]

  boots-Tracks : (w : World) → Tracks w → Tracks (record w { job = some (start_job w.disk) })
  boots-Tracks w t = record {
    replay = t.replay;
    sound = t.sound;
    job = λ j e. let q : start_job w.disk ≡ j = cc in rw (← q) (start_job-IsCurrent w t);
    saved = t.saved;
  }

  runs-Tracks :
      (w : World) (clock : ℕ → ℕ) (j : Job)
      → w.job ≡ some j
      → Tracks w
      → Tracks (record w {
        disk = (round db.query clock w.disk j).0;
        job = some (round db.query clock w.disk j).1;
      })
  runs-Tracks w clock j running t =
      let a = round-AfterRound clock w.disk j w.pending t.replay t.sound (t.job j running) in
      record {
        replay = rw a.in_dir t.replay;
        sound = a.sound;
        job = λ j' e. let q : (round db.query clock w.disk j).1 ≡ j' = cc in rw (← q) a.current;
        saved = λ j' e. elim a.state [
          | inl same ↦ IsPast-Grows es j' _ _ a.grows (t.saved j' (sym same ∙ e))
          | inr new ↦
              let q : (round db.query clock w.disk j).1 ≡ j' = cc in
              rw (← q) (IsPast-of_IsCurrent es _ _ a.current)
        ];
      }

  dies_emitting-Tracks :
      (w : World) (clock : ℕ → ℕ) (j : Job) (v : ℕ) (ws : List ℕ) (n : ℕ)
      → w.job ≡ some j
      → new_windows j.last_window_processed w.disk.in_dir ≡ v ∷ ws
      → Tracks w
      → Tracks (record w {
        disk = record w.disk { out_file = some (emitted_in_part db.query clock w.disk j v ws n) };
        job = none;
      })
  dies_emitting-Tracks w clock j v ws n running new t =
      let same = (t.job j running).same in
      let groups = take n (db.query (scan_files db.query clock w.disk j v ws)) in
      record {
        replay = t.replay;
        sound =
            part_sound db es clock w.disk j w.pending v ws groups t.replay new t.sound same
              (contains-take (db.query (scan_files db.query clock w.disk j v ws)) n);
        job = λ j' e. cc;
        saved = λ j' e.
            IsPast-Grows es j' _ _ (part-Grows db es clock w.disk j groups same) (t.saved j' e);
      }

  Step-Tracks : {s t : World} → Step db.query s t → Tracks s → Tracks t
  Step-Tracks {s} (lands f rest p e) k = rw e (lands-Tracks s f rest p k)
  Step-Tracks {s} (boots none_running e) k = rw e (boots-Tracks s k)
  Step-Tracks {s} (runs clock j running e) k = rw e (runs-Tracks s clock j running k)
  Step-Tracks (dies e) k =
      rw e (record { replay = k.replay; sound = k.sound; job = λ j h. cc; saved = k.saved })
  Step-Tracks {s} (dies_emitting clock j w ws n running new e) k =
      rw e (dies_emitting-Tracks s clock j w ws n running new k)

  pub Reach-Tracks : {s t : World} → Reach db.query s t → Tracks s → Tracks t
  Reach-Tracks here k = k
  Reach-Tracks (next r st) k = Step-Tracks st (Reach-Tracks r k)
