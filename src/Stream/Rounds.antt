-- ===== src/Stream/Rounds.antt =====
-- A round of the job: what the scan finds, and what it leaves in the alerts file.
use sdw_lab_benchmarks.Prelude.{
  ℕ, ◌≤◌, true, false, ◌&&◌, ◌≡◌, refl, arith, ◌∙◌, Option, none, some, List, ◌∷◌, ◌++◌, contains,
  contains-sort_by_self, sort_by_self-IsDistinct, leb, sort_by, Bool-cases, inl, inr, nat_eq,
  string_eq, triple_eq,
}
use sdw_lab_benchmarks.Stream.Corpus.{Event, Key}
use sdw_lab_benchmarks.Stream.Truth.{failures}
use sdw_lab_benchmarks.Stream.Land.{WindowFile}
use sdw_lab_benchmarks.Stream.Landed.{IsReplayOf}
use sdw_lab_benchmarks.Stream.Batch.{
  Group, Job, Disk, opened, is_new, new_windows, max_from, candidates, emit, begin_emit, scan_files,
}
use sdw_lab_benchmarks.Stream.Once.{alert_keys}
use sdw_lab_benchmarks.Stream.Windows.{key_window, failures_in, failures_in-windows}
use sdw_lab_benchmarks.Stream.Candidates.{
  new-candidate, candidate-in_dir, candidates-IsDistinct, last_candidate,
}
use sdw_lab_benchmarks.Stream.Emission.{SameKeys, group_keys, contains-emit}
use sdw_lab_benchmarks.Stream.Prefix.{
  landed_windows, landed-IsDistinct, failures-landed, alert_window, landed_of_le,
}
use sdw_lab_benchmarks.Stream.Answers.{GroupingEngine, Grows, is_due, IsSoundFile, IsCurrent}

pub old_window :
    (last : Option ℕ) (v : ℕ) → is_new last v ≡ false → (l : ℕ) × (last ≡ some l) × (v ≤ l)
old_window none v h = absurd (ground arith)
old_window (some l) v h = (l, refl, ground arith)

module _ (db : GroupingEngine) (es : List Event) where
  -- What the query finds in a scan: the due keys of the candidate windows.
  contains-scanned :
      (clock : ℕ → ℕ) (d : Disk) (j : Job) (pending : List WindowFile) (w : ℕ) (ws : List ℕ)
      (k : Key)
      → IsReplayOf es (d.in_dir ++ pending)
      → new_windows j.last_window_processed d.in_dir ≡ w ∷ ws
      → contains (group_keys (db.query (scan_files db.query clock d j w ws))) k ≡ (
          contains (candidates j.last_window_processed d.in_dir w ws) (key_window k) && is_due es k)
  contains-scanned clock d j pending w ws k r new =
      let cand = candidates j.last_window_processed d.in_dir w ws in
      let distinct =
        candidates-IsDistinct j.last_window_processed d.in_dir w ws new
          (landed-IsDistinct es d.in_dir pending r) in
      let total =
        failures_in-windows k d.in_dir (sort_by leb cand) (landed_windows es d.in_dir pending r)
          (sort_by_self-IsDistinct leb cand distinct) in
      let sorted = contains-sort_by_self leb (key_window k) cand in
      let found = db.groups (scan_files db.query clock d j w ws) k in
      elim (Bool-cases (contains cand (key_window k))) [
        | inl there ↦
            let landed =
              candidate-in_dir j.last_window_processed d.in_dir w ws new (key_window k) there in
            let all = failures-landed es d.in_dir pending r k landed in
            let same : failures_in k (scan_files db.query clock d j w ws) ≡ failures k es =
              ground arith in
            found ∙ rw (there, same) refl
        | inr missing ↦
            let none_there : failures_in k (scan_files db.query clock d j w ws) ≡ 0 =
              ground arith in
            found ∙ rw (missing, none_there) refl
      ]

  -- A scan, or a part of it, writes due alerts only and drops none.
  pub part_sound :
      (clock : ℕ → ℕ) (d : Disk) (j : Job) (pending : List WindowFile) (w : ℕ) (ws : List ℕ)
      (groups : List Group)
      → IsReplayOf es (d.in_dir ++ pending)
      → new_windows j.last_window_processed d.in_dir ≡ w ∷ ws
      → IsSoundFile es (opened d.out_file)
      → SameKeys (opened d.out_file) j.seen_keys
      → ((k : Key)
          → contains (group_keys groups) k ≡ true
          → contains (group_keys (db.query (scan_files db.query clock d j w ws))) k ≡ true)
      → IsSoundFile es (emit clock (begin_emit db.query clock d j) groups).out_file
  part_sound clock d j pending w ws groups r new sound same part k h = ground (
    arith,
    contains-emit clock (begin_emit db.query clock d j) groups k same,
    part k,
    contains-scanned clock d j pending w ws k r new,
    sound k,
  )

  pub part-Grows :
      (clock : ℕ → ℕ) (d : Disk) (j : Job) (groups : List Group)
      → SameKeys (opened d.out_file) j.seen_keys
      → Grows (opened d.out_file) (emit clock (begin_emit db.query clock d j) groups).out_file
  part-Grows clock d j groups same k h =
      ground (arith, contains-emit clock (begin_emit db.query clock d j) groups k same)

  abbrev after_scan : (clock : ℕ → ℕ) → Disk → Job → ℕ → List ℕ → Job
  after_scan clock d j w ws =
      let e =
        emit clock (begin_emit db.query clock d j)
          (db.query (scan_files db.query clock d j w ws)) in
      record {
        last_window_processed =
            some (max_from w (candidates j.last_window_processed d.in_dir w ws));
        seen_keys = e.seen_keys;
      }

  pub scan_covers :
      (clock : ℕ → ℕ) (d : Disk) (j : Job) (pending : List WindowFile) (w : ℕ) (ws : List ℕ)
      → IsReplayOf es (d.in_dir ++ pending)
      → new_windows j.last_window_processed d.in_dir ≡ w ∷ ws
      → IsCurrent es j (opened d.out_file)
      → (k : Key) → key_window k ≤ max_from w (candidates j.last_window_processed d.in_dir w ws)
      → is_due es k ≡ true
      → contains
          (alert_keys
            (emit clock
              (begin_emit db.query clock d j)
              (db.query (scan_files db.query clock d j w ws))).out_file)
          k
        ≡ true
  scan_covers clock d j pending w ws r new cur k le due =
      let last = j.last_window_processed in
      let max_in =
        candidate-in_dir last d.in_dir w ws new (max_from w (candidates last d.in_dir w ws))
          (last_candidate last d.in_dir w ws new) in
      let there =
        landed_of_le es d.in_dir pending r (max_from w (candidates last d.in_dir w ws))
          (key_window k) max_in (alert_window es d.in_dir pending r k due) le in
      let emitted =
        contains-emit clock (begin_emit db.query clock d j)
          (db.query (scan_files db.query clock d j w ws)) k cur.same in
      elim (Bool-cases (is_new last (key_window k))) [
        | inl isnew ↦
            let cand = new-candidate last d.in_dir w ws new (key_window k) there isnew in
            ground (arith, emitted, contains-scanned clock d j pending w ws k r new)
        | inr old ↦
            let (l, e, below) = old_window last (key_window k) old in
            let had = cur.covers l e k below due in ground (arith, emitted)
      ]
