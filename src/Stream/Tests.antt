-- ===== src/Stream/Tests.antt =====
-- A corpus of seven events, and a run of the batch arm over it.
use sdw_lab_benchmarks.Prelude.{
  String, ℕ, ◌+◌, ◌≡◌, ◌↔◌, refl, arith, ◌∙◌, none, some, List, [], ◌∷◌, ◌++◌, map, contains,
  IsDistinct, leb, insert, lookup, add, sort_by, insert_sorted, nat_eq, string_eq, triple_eq, true,
  bump, ap,
}
use sdw_lab_benchmarks.Stream.Corpus.{
  Event, Key, failure_threshold, TruthAlert, truth_key, independent_ground_truth, tally,
}
use sdw_lab_benchmarks.Stream.Truth.{
  failures, contains-independent_ground_truth, ground_truth-IsDistinct,
}
use sdw_lab_benchmarks.Stream.Land.{
  Row, WindowFile, replay, replay_events, replay_event, flush, land,
}
use sdw_lab_benchmarks.Stream.Landed.{events, IsSorted, IsReplayOf, replay-IsReplayOf}
use sdw_lab_benchmarks.Stream.Batch.{
  Group, Alert, Job, start_job, round, run_tick, scan, candidates, emit, emit_group, to_record,
  load_state, reload_seen_from_output, reload_lines, opened, rows_of,
}
use sdw_lab_benchmarks.Stream.World.{World, initial, lands, boots, runs, dies, Reach, here, next}
use sdw_lab_benchmarks.Stream.Windows.{failures_in}
use sdw_lab_benchmarks.Stream.Emission.{group_keys}
use sdw_lab_benchmarks.Stream.Answers.{GroupingEngine}
use sdw_lab_benchmarks.Stream.Once.{alert_keys, alerts_once}
use sdw_lab_benchmarks.Stream.Compare.{compare_arm, exit_status, load_ground_truth_keys}
use sdw_lab_benchmarks.Stream.Gate.{IsExact, exit_status-eq-zero_iff}
use sdw_lab_benchmarks.Stream.Equal.{alerts_in_truth, round_passes_gate}

-- A grouping engine: the counts of the rows' events, each key with its last ingest.
abbrev rows_in : List (List Row) → List Row
rows_in [] = []
rows_in (rows ∷ files) = rows ++ rows_in files

abbrev to_group : TruthAlert → Group
to_group a = record {
  user = a.user;
  src_ip = a.src_ip;
  window_start = a.window_start;
  failure_count = a.failure_count;
  last_ingest_wall_ts = 0;
}

abbrev group_rows : List (List Row) → List Group
group_rows files = map to_group (independent_ground_truth (events (rows_in files)))

group_keys-to_group :
    (alerts : List TruthAlert) → group_keys (map to_group alerts) ≡ map truth_key alerts
group_keys-to_group [] = refl
group_keys-to_group (a ∷ alerts) = ap (◌∷◌ (truth_key a)) (group_keys-to_group alerts)

failures-append :
    (k : Key) (rows rest : List Row)
    → failures k (events (rows ++ rest)) ≡ failures k (events rows) + failures k (events rest)
failures-append k [] rest = omega arith
failures-append k (r ∷ rows) rest = omega (arith, failures-append k rows rest)

failures-rows_in :
    (k : Key) (files : List (List Row)) → failures k (events (rows_in files)) ≡ failures_in k files
failures-rows_in k [] = refl
failures-rows_in k (rows ∷ files) =
    failures-append k rows (rows_in files)
    ∙ ap (◌+◌ (failures k (events rows))) (failures-rows_in k files)

abbrev engine : GroupingEngine
engine = record {
  query = group_rows;
  groups = λ files k.
      rw
        (
          group_keys-to_group (independent_ground_truth (events (rows_in files))),
          contains-independent_ground_truth,
          failures-rows_in,
        )
        refl;
}

abbrev login : ℕ → String → Event
login t status = record {
  event_uid = "e";
  time = t;
  user = "eve";
  src_ip = "10.0.0.9";
  status = status;
}

-- Five failures in one minute, and two events two minutes on.
abbrev corpus : List Event
corpus =
    login 60 "failure"
    ∷ login 61 "failure"
    ∷ login 61 "failure"
    ∷ login 70 "failure"
    ∷ login 119 "failure"
    ∷ login 180 "success"
    ∷ login 181 "failure"
    ∷ []

abbrev attack : Key
attack = ("eve", "10.0.0.9", 60)

abbrev clock : ℕ → ℕ
clock n = 1000 + n

corpus-IsSorted : IsSorted corpus
corpus-IsSorted = ground arith

contains-independent_ground_truth_example :
    contains (map truth_key (independent_ground_truth corpus)) attack
    ≡ leb failure_threshold (failures attack corpus)
contains-independent_ground_truth_example = contains-independent_ground_truth corpus attack

ground_truth-IsDistinct_example : IsDistinct (map truth_key (independent_ground_truth corpus))
ground_truth-IsDistinct_example = ground_truth-IsDistinct corpus

replay-IsReplayOf_example : IsReplayOf corpus (replay clock corpus)
replay-IsReplayOf_example = replay-IsReplayOf clock corpus corpus-IsSorted

abbrev first_file : WindowFile
first_file = (
  1,
  map (λ e. record { event = e; ingest_wall_ts = 1000 })
      (login 60 "failure"
        ∷ login 61 "failure"
        ∷ login 61 "failure"
        ∷ login 70 "failure"
        ∷ login 119 "failure"
        ∷ []),
)

abbrev second_file : WindowFile
second_file = (
  3,
  map (λ e. record { event = e; ingest_wall_ts = 1001 })
      (login 180 "success" ∷ login 181 "failure" ∷ []),
)

replay_corpus : replay clock corpus ≡ first_file ∷ second_file ∷ []
unfolding replay replay_events replay_event flush land
replay_corpus = refl

abbrev start : World
start = initial (replay clock corpus)

abbrev landed : WindowFile → List WindowFile → World → World
landed f rest w = record w {
  disk = record w.disk { in_dir = insert f.0 f.1 w.disk.in_dir };
  pending = rest;
}

abbrev booted : World → World
booted w = record w { job = some (start_job w.disk) }

abbrev ran : Job → World → World
ran j w = record w {
  disk = (round group_rows clock w.disk j).0;
  job = some (round group_rows clock w.disk j).1;
}

abbrev died : World → World
died w = record w { job = none }

-- The job scans the first file and dies; the second file lands, and the job starts again.
abbrev first_boot : World
first_boot = booted (landed first_file (second_file ∷ []) start)

abbrev restarted : World
restarted = booted (landed second_file [] (died (ran (start_job first_boot.disk) first_boot)))

restarted-Reach : Reach group_rows start restarted
restarted-Reach =
    next
      (next
        (next
          (next
            (next (next here (lands first_file (second_file ∷ []) replay_corpus refl))
              (boots refl refl))
            (runs clock (start_job first_boot.disk) refl refl))
          (dies refl))
        (lands second_file [] refl refl))
      (boots refl refl)

alerts_once_example : IsDistinct (alert_keys (opened restarted.disk.out_file))
alerts_once_example = alerts_once group_rows (replay clock corpus) restarted restarted-Reach

attack_alerted : contains (alert_keys (opened restarted.disk.out_file)) attack ≡ true
unfolding start_job round run_tick scan candidates emit emit_group to_record load_state
    reload_seen_from_output reload_lines rows_of contains add insert lookup sort_by insert_sorted
    independent_ground_truth tally bump
attack_alerted = refl

-- Over no events a round leaves no file, and the gate does not pass.
no_file_no_pass :
    exit_status (
      compare_arm
        (round group_rows clock (initial []).disk (start_job (initial []).disk)).0.out_file
        (load_ground_truth_keys (independent_ground_truth [])))
    ≡ 1
unfolding start_job round run_tick load_state reload_seen_from_output sort_by compare_arm
    exit_status
no_file_no_pass = refl

alerts_in_truth_example :
    contains (load_ground_truth_keys (independent_ground_truth corpus)) attack ≡ true
alerts_in_truth_example =
    alerts_in_truth engine clock corpus corpus-IsSorted restarted attack restarted-Reach
      attack_alerted

round_passes_gate_example :
    exit_status (
      compare_arm
        (round group_rows clock restarted.disk (start_job restarted.disk)).0.out_file
        (load_ground_truth_keys (independent_ground_truth corpus)))
    ≡ 0
round_passes_gate_example =
    round_passes_gate engine clock corpus corpus-IsSorted clock restarted (start_job restarted.disk)
      restarted-Reach refl refl

abbrev attack_alert : Alert
attack_alert = record {
  user = "eve";
  src_ip = "10.0.0.9";
  window_start = 60;
  failure_count = 5;
  last_ingest_wall_ts = 1000;
  alert_emit_wall_ts = 1003;
}

exit_status-eq-zero_iff_example :
    (exit_status (compare_arm (some (attack_alert ∷ [])) (attack ∷ [])) ≡ 0)
    ↔ ((rows : List Alert) × (some (attack_alert ∷ []) ≡ some rows) × IsExact (attack ∷ []) rows)
exit_status-eq-zero_iff_example = exit_status-eq-zero_iff (some (attack_alert ∷ [])) (attack ∷ [])
