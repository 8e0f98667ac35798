-- ===== src/Stream/Equal.antt =====
-- The batch arm against the ground truth, through the gate.
use sdw_lab_benchmarks.Prelude.{
  ℕ, true, ◌≡◌, refl, arith, ◌∙◌, none, is_empty, if◌then◌else◌, ◌∷◌, some, List, [], ◌++◌, map,
  keys, contains, Bool-cases, List-cases, inl, inr, nat_eq, string_eq, triple_eq,
}
use sdw_lab_benchmarks.Stream.Corpus.{Event, Key}
use sdw_lab_benchmarks.Stream.Landed.{IsReplayOf}
use sdw_lab_benchmarks.Stream.Batch.{Job, opened, is_new, new_windows, run_tick, round}
use sdw_lab_benchmarks.Stream.World.{World, initial, runs, Reach, next}
use sdw_lab_benchmarks.Stream.Once.{alert_keys}
use sdw_lab_benchmarks.Stream.Windows.{key_window}
use sdw_lab_benchmarks.Stream.Candidates.{new-candidate, candidate-le}
use sdw_lab_benchmarks.Stream.Prefix.{alert_window}
use sdw_lab_benchmarks.Stream.Answers.{GroupingEngine, is_due, IsCurrent}
use sdw_lab_benchmarks.Stream.Rounds.{scan_covers}
use mathlib.Core.List.{append-nil}
use sdw_lab_benchmarks.Prelude.{contains-to_set}
use sdw_lab_benchmarks.Stream.Corpus.{truth_key, independent_ground_truth}
use sdw_lab_benchmarks.Stream.Truth.{contains-independent_ground_truth}
use sdw_lab_benchmarks.Stream.Land.{WindowFile, replay, replay_events, flush}
use sdw_lab_benchmarks.Stream.Landed.{IsSorted, replay-IsReplayOf, events_of}
use sdw_lab_benchmarks.Stream.Opened.{
  Exists, Opens, Reach-Opens, round-Exists, Idle, Reach-Idle, round-idle,
}
use sdw_lab_benchmarks.Stream.Once.{alerts_once}
use sdw_lab_benchmarks.Stream.Candidates.{contains-new_windows}
use sdw_lab_benchmarks.Stream.Compare.{load_ground_truth_keys, compare_arm, exit_status}
use sdw_lab_benchmarks.Stream.Gate.{IsExact, exit_status-eq-zero_iff}
use sdw_lab_benchmarks.Stream.Rounds.{old_window}
use sdw_lab_benchmarks.Stream.Arm.{Tracks, Reach-Tracks, round-AfterRound}

contains-truth_keys :
    (es : List Event) (k : Key)
    → contains (load_ground_truth_keys (independent_ground_truth es)) k ≡ is_due es k
unfolding load_ground_truth_keys contains
contains-truth_keys es k = ground (
  arith,
  contains-to_set (map truth_key (independent_ground_truth es)) [] k,
  contains-independent_ground_truth es k,
)

-- A directory that holds events holds a window.
landed_window :
    (es : List Event) (dir : List WindowFile) (e : Event) (rest : List Event)
    → events_of dir ≡ es
    → es ≡ e ∷ rest
    → (v : ℕ) × (contains (keys dir) v ≡ true)
unfolding contains
landed_window es [] e rest all some_event = absurd cc
landed_window es (f ∷ files) e rest all some_event = (f.0, ground arith)

module _ (db : GroupingEngine) (es : List Event) where
  round_covers_new :
      (clock : ℕ → ℕ) (t : World) (j : Job) (k : Key)
      → IsReplayOf es (t.disk.in_dir ++ t.pending)
      → IsCurrent es j (opened t.disk.out_file)
      → contains (keys t.disk.in_dir) (key_window k) ≡ true
      → is_new j.last_window_processed (key_window k) ≡ true
      → is_due es k ≡ true
      → contains (alert_keys (opened (round db.query clock t.disk j).0.out_file)) k ≡ true
  unfolding round contains
  round_covers_new clock t j k r cur landed isnew due =
      let last = j.last_window_processed in
      let found = contains-new_windows last t.disk.in_dir (key_window k) in
      elim (List-cases (new_windows last t.disk.in_dir)) [
        | inl e ↦ absurd (let found' = rw e at found in ground arith)
        | inr (w, ws, e) ↦
            let cand = new-candidate last t.disk.in_dir w ws e (key_window k) landed isnew in
            rw (e, run_tick)
              (scan_covers db es clock t.disk j t.pending w ws r e cur k
                (candidate-le last t.disk.in_dir w ws e (key_window k) cand) due)
      ]

  round_covers :
      (clock : ℕ → ℕ) (t : World) (j : Job) (k : Key)
      → Tracks db es t
      → t.pending ≡ []
      → t.job ≡ some j
      → is_due es k ≡ true
      → contains (alert_keys (opened (round db.query clock t.disk j).0.out_file)) k ≡ true
  round_covers clock t j k tr all_landed running due =
      let cur = tr.job j running in
      let a = round-AfterRound db es clock t.disk j t.pending tr.replay tr.sound cur in
      let there = alert_window es t.disk.in_dir t.pending tr.replay k due in
      let landed : contains (keys t.disk.in_dir) (key_window k) ≡ true =
        rw (all_landed, append-nil) at there in
      elim (Bool-cases (is_new j.last_window_processed (key_window k))) [
        | inl isnew ↦ round_covers_new clock t j k tr.replay cur landed isnew due
        | inr old ↦
            let (l, e, below) = old_window j.last_window_processed (key_window k) old in
            a.grows k (cur.covers l e k below due)
      ]

module _ (db : GroupingEngine) (landing : ℕ → ℕ) (es : List Event) (sorted : IsSorted es) where
  initial-Tracks : Tracks db es (initial (replay landing es))
  unfolding contains
  initial-Tracks = record {
    replay = replay-IsReplayOf landing es sorted;
    sound = λ k h. absurd cc;
    job = λ j h. absurd cc;
    saved = λ j h. absurd cc;
  }

  -- Where the query gives the keys with enough failures: at every state that the arm reaches from a
  -- replay of the events, whose times do not fall, also after crashes, each key in the alerts file
  -- is a key of the ground truth.
  pub alerts_in_truth :
      (t : World) (k : Key)
      → Reach db.query (initial (replay landing es)) t
      → contains (alert_keys (opened t.disk.out_file)) k ≡ true
      → contains (load_ground_truth_keys (independent_ground_truth es)) k ≡ true
  alerts_in_truth t k r h =
      contains-truth_keys es k ∙ (Reach-Tracks db es r initial-Tracks).sound k h

  initial-Opens : Opens (initial (replay landing es))
  initial-Opens = record { job = λ j h. absurd cc; saved = λ j h. absurd cc }

  -- With all files landed, a round leaves a file where there are events.
  round_leaves_file :
      (clock : ℕ → ℕ) (t : World) (j : Job)
      → Reach db.query (initial (replay landing es)) t
      → t.pending ≡ []
      → t.job ≡ some j
      → (e : Event) (rest : List Event) → es ≡ e ∷ rest
      → Exists (round db.query clock t.disk j).0.out_file
  round_leaves_file clock t j r all_landed running e rest some_event =
      let tr = Reach-Tracks db es r initial-Tracks in
      let o = Reach-Opens db.query r initial-Opens in
      let contents : events_of t.disk.in_dir ≡ es =
        rw (all_landed, append-nil) at tr.replay.contents in
      let (v, landed) = landed_window es t.disk.in_dir e rest contents some_event in
      round-Exists db.query clock t.disk j v landed (o.job j running)

  round-IsExact :
      (clock : ℕ → ℕ) (t : World) (j : Job)
      → Reach db.query (initial (replay landing es)) t
      → t.pending ≡ []
      → t.job ≡ some j
      → IsExact
          (load_ground_truth_keys (independent_ground_truth es))
          (opened (round db.query clock t.disk j).0.out_file)
  round-IsExact clock t j r all_landed running =
      let tr = Reach-Tracks db es r initial-Tracks in
      let a =
        round-AfterRound db es clock t.disk j t.pending tr.replay tr.sound (tr.job j running) in
      let once = alerts_once db.query (replay landing es) _ (next r (runs clock j running refl)) in
      record {
        distinct = once;
        same = λ k. ground (
          arith,
          contains-truth_keys es k,
          a.sound k,
          round_covers db es clock t j k tr all_landed running,
        );
      }

  -- Over no events the arm never has a file.
  no_events_no_file :
      (clock : ℕ → ℕ) (t : World) (j : Job)
      → Reach db.query (initial (replay landing es)) t
      → es ≡ []
      → (round db.query clock t.disk j).0.out_file ≡ none
  unfolding replay replay_events flush
  no_events_no_file clock t j r no_events =
      let start : Idle (initial (replay landing es)) =
        rw no_events (record { pending = refl; in_dir = refl; out_file = refl }) in
      let i = Reach-Idle db.query r start in
      (round-idle db.query clock t.disk j i.in_dir).1 ∙ i.out_file

  -- Where the query gives the keys with enough failures: from every state that the arm reaches from a
  -- replay of the events, whose times do not fall, with all files landed and a job running, also
  -- after crashes and restarts, one complete round leaves the alerts file in a state that the gate
  -- passes with exit status 0 if there are events; without an event there is no alerts file, and
  -- the exit status is 1.
  pub round_passes_gate :
      (clock : ℕ → ℕ) (t : World) (j : Job)
      → Reach db.query (initial (replay landing es)) t
      → t.pending ≡ []
      → t.job ≡ some j
      → exit_status (
          compare_arm
            (round db.query clock t.disk j).0.out_file
            (load_ground_truth_keys (independent_ground_truth es)))
        ≡ (if is_empty es then 1 else 0)
  round_passes_gate clock t j r all_landed running = elim (List-cases es) [
    | inl no_events ↦
        rw (no_events_no_file clock t j r no_events, no_events)
          (unfold exit_status compare_arm in refl)
    | inr (e, rest, some_event) ↦
        let exists = round_leaves_file clock t j r all_landed running e rest some_event in
        let exact = round-IsExact clock t j r all_landed running in
        (exit_status-eq-zero_iff _ _).1 (_, exists, exact) ∙ rw some_event refl
  ]
