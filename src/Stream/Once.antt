-- ===== src/Stream/Once.antt =====
-- No alert is written twice, whatever the crashes and restarts.
use mathlib.Core.List.{map-append}
use sdw_lab_benchmarks.Prelude.{
  ℕ, true, false, ◌||◌, ◌≡◌, refl, arith, Option, none, some, List, [], ◌∷◌, ◌++◌, map, nat_eq,
  take, Eq, contains, add, contains-add, contains-append, append-IsDistinct, IsDistinct, triple_eq,
  string_eq, Bool-cases, List-cases, inl, inr,
}
use sdw_lab_benchmarks.Stream.Corpus.{Key}
use sdw_lab_benchmarks.Stream.Land.{Row, WindowFile}
use sdw_lab_benchmarks.Stream.Batch.{
  Group, group_key, Alert, alert_key, Job, Disk, Emitted, reload_lines, reload_seen_from_output,
  opened, start_job, new_windows, emit_group, emit, begin_emit, scan_files, run_tick, round,
  load_state,
}
use sdw_lab_benchmarks.Stream.World.{
  World, initial, Step, lands, boots, runs, dies, dies_emitting, Reach, here, next,
}

-- The keys of the alerts in the file.
abbrev pub alert_keys : List Alert → List Key
alert_keys = map alert_key

-- Every alert of the file is among the keys seen.
abbrev pub IsKnown : List Alert → List Key → Type 0
IsKnown out seen = (k : Key) → contains (alert_keys out) k ≡ true → contains seen k ≡ true

pub record IsOnce (out : List Alert) (seen : List Key) : Type 0 where
  pub distinct : IsDistinct (alert_keys out)
  pub known : IsKnown out seen

contains-reload_lines :
    (k : Key) (out : List Alert) (seen : List Key)
    → contains (reload_lines out seen) k ≡ (contains (alert_keys out) k || contains seen k)
unfolding reload_lines contains
contains-reload_lines k [] seen = refl
contains-reload_lines k (a ∷ out) seen =
    ground (
      arith,
      contains-reload_lines k out (add (alert_key a) seen),
      contains-add (alert_key a) k seen,
    )

pub contains-reload :
    (k : Key) (file : Option (List Alert)) (seen : List Key)
    → contains (reload_seen_from_output file seen) k
      ≡ (contains (alert_keys (opened file)) k || contains seen k)
unfolding reload_seen_from_output contains
contains-reload k none seen = refl
contains-reload k (some out) seen = contains-reload_lines k out seen

known_extends {ℓ} :
    {A : Type ℓ} ⦃e : Eq A⦄ (xs seen : List A) (a k : A)
    → (contains xs k ≡ true → contains seen k ≡ true)
    → contains (xs ++ a ∷ []) k ≡ true
    → contains (add a seen) k ≡ true
unfolding contains
known_extends ⦃e⦄ xs seen a k h c =
    ground (arith, contains-append xs (a ∷ []) k, contains-add a k seen)

module _ (clock : ℕ → ℕ) where
  pub alert_keys-emit_group :
      (s : Emitted) (g : Group)
      → contains s.seen_keys (group_key g) ≡ false
      → alert_keys (emit_group clock s g).out_file ≡ alert_keys s.out_file ++ group_key g ∷ []
  unfolding emit_group
  alert_keys-emit_group s g new = rw (new, map-append alert_key s.out_file)

  emit_group-IsOnce :
      (s : Emitted) (g : Group)
      → IsOnce s.out_file s.seen_keys
      → IsOnce (emit_group clock s g).out_file (emit_group clock s g).seen_keys
  unfolding emit_group
  emit_group-IsOnce s g o = elim (Bool-cases (contains s.seen_keys (group_key g))) [
    | inl old ↦ rw (old, emit_group) o
    | inr new ↦
        let keys' = alert_keys-emit_group s g new in
        let fresh : contains (alert_keys s.out_file) (group_key g) ≡ false =
          ground (arith, o.known (group_key g)) in
        record {
          distinct =
              rw keys' (append-IsDistinct (alert_keys s.out_file) (group_key g) o.distinct fresh);
          known = λ k.
              rw (keys', new, emit_group)
                (known_extends (alert_keys s.out_file) s.seen_keys (group_key g) k (o.known k));
        }
  ]

  emit-IsOnce :
      (s : Emitted) (groups : List Group)
      → IsOnce s.out_file s.seen_keys
      → IsOnce (emit clock s groups).out_file (emit clock s groups).seen_keys
  unfolding emit
  emit-IsOnce s [] o = o
  emit-IsOnce s (g ∷ groups) o = emit-IsOnce (emit_group clock s g) groups (emit_group-IsOnce s g o)

-- What a reachable state keeps: no two alerts of one key, and a running job knows them all.
record Safe (w : World) : Type 0 where
  distinct : IsDistinct (alert_keys (opened w.disk.out_file))
  known : (j : Job) → w.job ≡ some j → IsKnown (opened w.disk.out_file) j.seen_keys

start_job-IsKnown : (d : Disk) → IsKnown (opened d.out_file) (start_job d).seen_keys
unfolding start_job
start_job-IsKnown d k h =
    ground (arith, contains-reload k d.out_file (load_state d.state_file).seen_keys)

module _ (query : List (List Row) → List Group) where
  round-IsOnce :
      (clock : ℕ → ℕ) (d : Disk) (j : Job)
      → IsOnce (opened d.out_file) j.seen_keys
      → IsOnce (opened (round query clock d j).0.out_file) (round query clock d j).1.seen_keys
  unfolding round
  round-IsOnce clock d j o = elim (List-cases (new_windows j.last_window_processed d.in_dir)) [
    | inl e ↦ rw (e, run_tick) o
    | inr (w, ws, e) ↦
        rw (e, run_tick)
          (emit-IsOnce clock (begin_emit query clock d j) (query (scan_files query clock d j w ws))
            o)
  ]

  Step-Safe : {s t : World} → Step query s t → Safe s → Safe t
  Step-Safe (lands f rest p e) safe = rw e (record { distinct = safe.distinct; known = safe.known })
  Step-Safe {s} (boots none_running e) safe = rw e (record {
    distinct = safe.distinct;
    known = λ j h. let q : start_job s.disk ≡ j = cc in rw (← q) (start_job-IsKnown s.disk);
  })
  Step-Safe {s} (runs clock j running e) safe =
      let o =
        round-IsOnce clock s.disk j
          (record { distinct = safe.distinct; known = safe.known j running }) in
      rw e (record {
        distinct = o.distinct;
        known = λ j' h. let q : (round query clock s.disk j).1 ≡ j' = cc in rw (← q) o.known;
      })
  Step-Safe (dies e) safe = rw e (record { distinct = safe.distinct; known = λ j h. cc })
  Step-Safe {s} (dies_emitting clock j w ws n running new e) safe =
      let o =
        emit-IsOnce clock (begin_emit query clock s.disk j)
          (take n (query (scan_files query clock s.disk j w ws)))
          (record { distinct = safe.distinct; known = safe.known j running }) in
      rw e (record { distinct = o.distinct; known = λ j' h. cc })

  Reach-Safe : {s t : World} → Reach query s t → Safe s → Safe t
  Reach-Safe here safe = safe
  Reach-Safe (next r st) safe = Step-Safe st (Reach-Safe r safe)

  -- However the collector's landings, the rounds, the crashes (also between two alerts of a round)
  -- and the restarts follow one another, the alerts file never holds two alerts of one key,
  -- whatever the query returns.
  pub alerts_once :
      (files : List WindowFile) (t : World)
      → Reach query (initial files) t
      → IsDistinct (alert_keys (opened t.disk.out_file))
  unfolding contains
  alerts_once files t r = (Reach-Safe r (record { distinct = tt; known = λ j h. cc })).distinct
