-- ===== src/Stream/Landed.antt =====
-- What a replay lands: the events, each in the file of its window.
use sdw_lab_benchmarks.Prelude.{
  ℕ, ◌+◌, ◌≤◌, ◌<◌, ◌≡◌, refl, ap, sym, ◌∙◌, arith, none, some, List, [], ◌∷◌, ◌++◌, map, length,
  All, All-append, All-map, ◌==◌, nat_eq, Bool-cases, inl, inr, eqb_iff,
}
use mathlib.Core.List.{append_assoc, append-nil}
use sdw_lab_benchmarks.Stream.Corpus.{Event}
use sdw_lab_benchmarks.Stream.Land.{
  Row, WindowFile, window_index, Replay, stamp, land, replay_event, replay_events, flush, begin,
  replay,
}

abbrev pub events : List Row → List Event
events = map (λ (r : Row). r.event)

abbrev pub events_of : List WindowFile → List Event
events_of [] = []
events_of (f ∷ fs) = events f.1 ++ events_of fs

-- Every row of the file is of the file's window.
abbrev pub IsWindow : WindowFile → Type 0
IsWindow f = All (λ (r : Row). window_index r.event.time ≡ f.0) f.1

abbrev pub Ascending : List WindowFile → Type 0
Ascending [] = Unit
Ascending (f ∷ fs) = All (λ (g : WindowFile). f.0 < g.0) fs × Ascending fs

-- The times do not fall.
abbrev pub IsSorted : List Event → Type 0
IsSorted [] = Unit
IsSorted (e ∷ es) = All (λ (x : Event). e.time ≤ x.time) es × IsSorted es

events-stamp : (now : ℕ) (es : List Event) → events (stamp now es) ≡ es
events-stamp now [] = refl
events-stamp now (e ∷ es) = ap (◌∷◌ e) (events-stamp now es)

events_of-append :
    (fs : List WindowFile) (f : WindowFile) → events_of (fs ++ f ∷ []) ≡ events_of fs ++ events f.1
events_of-append [] f = append-nil (events f.1)
events_of-append (g ∷ fs) f = rw (events_of-append fs f, append_assoc)

stamp-IsWindow :
    (now w : ℕ) (es : List Event)
    → All (λ (e : Event). window_index e.time ≡ w) es
    → IsWindow (w, stamp now es)
stamp-IsWindow now w [] h = tt
stamp-IsWindow now w (e ∷ es) h = (h.0, stamp-IsWindow now w es h.1)

Ascending-append :
    (fs : List WindowFile) (f : WindowFile)
    → Ascending fs
    → All (λ (g : WindowFile). g.0 < f.0) fs
    → Ascending (fs ++ f ∷ [])
Ascending-append [] f a h = (tt, tt)
Ascending-append (g ∷ fs) f a h =
    (All-append _ fs (f ∷ []) a.0 (h.0, tt), Ascending-append fs f a.1 h.1)

-- What the loop keeps, over the events read so far: with no window open nothing has been read, and
-- with the window `w` open the files landed are of earlier windows and the bucket is of `w`.
data Inv (done : List Event) (s : Replay) : Type 0 where
  fresh : s.current_w ≡ none → s.bucket ≡ [] → s.files ≡ [] → done ≡ [] → Inv done s
  opened :
      (w : ℕ)
      → s.current_w ≡ some w
      → events_of s.files ++ s.bucket ≡ done
      → All IsWindow s.files
      → Ascending s.files
      → All (λ (f : WindowFile). f.0 < w) s.files
      → All (λ (e : Event). window_index e.time ≡ w) s.bucket
      → Inv done s

module _ (clock : ℕ → ℕ) where
  land-Inv :
      (w v : ℕ) (bucket : List Event) (files : List WindowFile)
      → w < v
      → All IsWindow files
      → Ascending files
      → All (λ (f : WindowFile). f.0 < w) files
      → All (λ (e : Event). window_index e.time ≡ w) bucket
      → (events_of (land clock w bucket files) ≡ events_of files ++ bucket)
        × All IsWindow (land clock w bucket files)
        × Ascending (land clock w bucket files)
        × All (λ (f : WindowFile). f.0 < v) (land clock w bucket files)
  unfolding land
  land-Inv w v bucket files lt win asc before b =
      let now = clock (length files) in
      let file : WindowFile = (w, stamp now bucket) in
      (
        rw (events_of-append files file, events-stamp now bucket),
        All-append IsWindow files (file ∷ []) win (stamp-IsWindow now w bucket b, tt),
        Ascending-append files file asc before,
        All-append _ files (file ∷ []) (All-map _ _ (λ f h. omega arith) files before) (lt, tt),
      )

  replay_event-Inv :
      (done : List Event) (s : Replay) (e : Event)
      → Inv done s
      → ((w : ℕ) → s.current_w ≡ some w → w ≤ window_index e.time)
      → Inv (done ++ e ∷ []) (replay_event clock s e)
  unfolding replay_event
  replay_event-Inv done s e (fresh c b f d) later =
      rw (c, b, f, d, replay_event) (opened (window_index e.time) refl refl tt tt tt (refl, tt))
  replay_event-Inv done s e (opened w c all win asc before b) later =
      elim (Bool-cases (window_index e.time == w)) [
        | inl same ↦
            let at_w = (eqb_iff (window_index e.time) w).0 same in
            rw (c, same, replay_event)
              (opened w c (rw (← all) (sym (append_assoc (events_of s.files) s.bucket (e ∷ []))))
                win asc before (All-append _ s.bucket (e ∷ []) b (at_w, tt)))
        | inr other ↦
            let lt : w < window_index e.time = ground (arith, later w c) in
            let (all', win', asc', before') =
              land-Inv w (window_index e.time) s.bucket s.files lt win asc before b in
            rw (c, other, replay_event)
              (opened (window_index e.time) refl (rw (all', all) refl) win' asc' before' (refl, tt))
      ]

  current-replay_event :
      (s : Replay) (e : Event) → (replay_event clock s e).current_w ≡ some (window_index e.time)
  unfolding replay_event
  current-replay_event s e = ground arith

  later_events :
      (e : Event) (es : List Event)
      → All (λ (x : Event). e.time ≤ x.time) es
      → All (λ (x : Event). window_index e.time ≤ window_index x.time) es
  later_events e = All-map _ _ (λ x h. omega arith)

  replay_events-Inv :
      (done : List Event) (s : Replay) (es : List Event)
      → Inv done s
      → ((w : ℕ) → s.current_w ≡ some w → All (λ (x : Event). w ≤ window_index x.time) es)
      → IsSorted es
      → Inv (done ++ es) (replay_events clock s es)
  unfolding replay_events
  replay_events-Inv done s [] inv later sorted = rw append-nil inv
  replay_events-Inv done s (e ∷ es) inv later sorted =
      let inv' = replay_event-Inv done s e inv (λ w c. (later w c).0) in
      let rest =
        replay_events-Inv (done ++ e ∷ []) (replay_event clock s e) es inv'
          (λ w c.
            let same : window_index e.time ≡ w = ground (arith, current-replay_event s e) in
            rw (← same) (later_events e es sorted.0))
          sorted.1 in
      rw (append_assoc done (e ∷ []) es) at rest

-- The files of a replay: they hold the events, in order, each in a file of its window, and no
-- window has two files.
pub record IsReplayOf (es : List Event) (files : List WindowFile) : Type 0 where
  pub contents : events_of files ≡ es
  pub windows : All IsWindow files
  pub ascending : Ascending files

flush_open :
    (clock : ℕ → ℕ) (es : List Event) (w : ℕ) (bucket : List Event) (files : List WindowFile)
    → events_of files ++ bucket ≡ es
    → All IsWindow files
    → Ascending files
    → All (λ (f : WindowFile). f.0 < w) files
    → All (λ (e : Event). window_index e.time ≡ w) bucket
    → IsReplayOf es (flush clock (some w) bucket files)
unfolding flush
flush_open clock es w [] files all win asc before b = record {
  contents = sym (append-nil (events_of files)) ∙ all;
  windows = win;
  ascending = asc;
}
flush_open clock es w (e ∷ bucket) files all win asc before b =
    let (all', win', asc', _) =
      land-Inv clock w (w + 1) (e ∷ bucket) files (omega arith) win asc before b in
    record { contents = all' ∙ all; windows = win'; ascending = asc' }

flush-IsReplayOf :
    (clock : ℕ → ℕ) (es : List Event) (s : Replay)
    → Inv es s
    → IsReplayOf es (flush clock s.current_w s.bucket s.files)
unfolding flush
flush-IsReplayOf clock es s (fresh c b f d) =
    rw (b, f, d, flush) (record { contents = refl; windows = tt; ascending = tt })
flush-IsReplayOf clock es s (opened w c all win asc before b) =
    rw c (flush_open clock es w s.bucket s.files all win asc before b)

-- Where the events' times do not fall, the files of a replay hold the events in their order, the
-- rows of each file are of the file's window, and the windows of the files ascend.
pub replay-IsReplayOf :
    (clock : ℕ → ℕ) (es : List Event) → IsSorted es → IsReplayOf es (replay clock es)
unfolding replay
replay-IsReplayOf clock es sorted =
    flush-IsReplayOf clock es (replay_events clock begin es)
      (replay_events-Inv clock [] begin es (fresh refl refl refl refl) (λ w c. cc) sorted)
