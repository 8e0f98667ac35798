-- ===== src/Stream/Windows.antt =====
-- The failures of a key are all in the file of its window.
use sdw_lab_benchmarks.Prelude.{
  ℕ, ◌+◌, ◌/◌, ◌<◌, true, ◌≡◌, ◌≢◌, refl, ap, arith, List, [], ◌∷◌, map, lookup, contains,
  IsDistinct, All, count_if-append, ◌==◌, nat_eq, triple_eq, string_eq, triple_beq_iff, Bool-cases,
  inl, inr, if◌then◌else◌,
}
use sdw_lab_benchmarks.Stream.Corpus.{Event, Key, window_seconds, window_start, event_key}
use sdw_lab_benchmarks.Stream.Truth.{is_failure_of, failures}
use sdw_lab_benchmarks.Stream.Land.{Row, WindowFile, window_index}
use sdw_lab_benchmarks.Stream.Landed.{events, events_of, IsWindow, Ascending}
use sdw_lab_benchmarks.Stream.Batch.{Directory, rows_of}

-- The window of a key.
abbrev pub key_window : Key → ℕ
key_window k = k.2 / window_seconds

-- The failures of a key among the rows of some files.
abbrev pub failures_in : Key → List (List Row) → ℕ
failures_in k [] = 0
failures_in k (rows ∷ files) = failures k (events rows) + failures_in k files

failure_window :
    (k : Key) (e : Event) → is_failure_of k e ≡ true → window_index e.time ≡ key_window k
failure_window k e h =
    let same : k ≡ event_key e = ground (arith, triple_beq_iff k (event_key e)) in
    let start : k.2 ≡ window_start e.time = ap (λ (x : Key). x.2) same in omega arith

failures_elsewhere :
    (k : Key) (w : ℕ) (rows : List Row)
    → IsWindow (w, rows)
    → w ≢ key_window k
    → failures k (events rows) ≡ 0
failures_elsewhere k w [] win ne = refl
failures_elsewhere k w (r ∷ rows) win ne = elim (Bool-cases (is_failure_of k r.event)) [
  | inl hit ↦ absurd (ne (ground (arith, failure_window k r.event hit)))
  | inr miss ↦ rw miss (omega (arith, failures_elsewhere k w rows win.1 ne))
]

pub rows_of-cons :
    (v w : ℕ) (rows : List Row) (dir : Directory)
    → rows_of ((v, rows) ∷ dir) w ≡ (if w == v then rows else rows_of dir w)
unfolding rows_of lookup
rows_of-cons v w rows dir = ground arith

rows_of-IsWindow : (dir : Directory) (w : ℕ) → All IsWindow dir → IsWindow (w, rows_of dir w)
rows_of-IsWindow [] w h = unfold rows_of lookup in tt
rows_of-IsWindow ((v, rows) ∷ dir) w h = elim (Bool-cases (w == v)) [
  | inl same ↦ let e : v ≡ w = ground arith in rw (rows_of-cons v w rows dir, same) (rw e at h.0)
  | inr other ↦ rw (rows_of-cons v w rows dir, other) (rows_of-IsWindow dir w h.1)
]

-- Over distinct windows of a directory, the failures of a key are those of its own window's file.
pub failures_in-windows :
    (k : Key) (dir : Directory) (ws : List ℕ)
    → All IsWindow dir
    → IsDistinct ws
    → failures_in k (map (rows_of dir) ws)
      ≡ (if contains ws (key_window k) then failures k (events (rows_of dir (key_window k))) else 0)
unfolding contains
failures_in-windows k dir [] win d = refl
failures_in-windows k dir (w ∷ ws) win d = elim (Bool-cases (key_window k == w)) [
  | inl here ↦
      let e : w ≡ key_window k = ground arith in
      ground (arith, failures_in-windows k dir ws win d.1)
  | inr other ↦
      let none_here =
        failures_elsewhere k w (rows_of dir w) (rows_of-IsWindow dir w win) (ground arith) in
      ground (arith, none_here, failures_in-windows k dir ws win d.1)
]

failures_later :
    (k : Key) (files : List WindowFile)
    → All IsWindow files
    → All (λ (f : WindowFile). key_window k < f.0) files
    → failures k (events_of files) ≡ 0
failures_later k [] win h = refl
failures_later k (f ∷ files) win h = omega (
  arith,
  count_if-append (is_failure_of k) (events f.1) (events_of files),
  failures_elsewhere k f.0 f.1 win.0 (omega arith),
  failures_later k files win.1 h.1,
)

-- The files of a replay hold a key's failures in the file of its window.
pub failures-replay :
    (k : Key) (files : List WindowFile)
    → All IsWindow files
    → Ascending files
    → failures k (events_of files) ≡ failures k (events (rows_of files (key_window k)))
failures-replay k [] win asc = unfold rows_of lookup in refl
failures-replay k ((w, rows) ∷ files) win asc =
    let all = count_if-append (is_failure_of k) (events rows) (events_of files) in
    elim (Bool-cases (key_window k == w)) [
      | inl here ↦
          let e : w ≡ key_window k = ground arith in
          let later = failures_later k files win.1 (rw e at asc.0) in
          rw (rows_of-cons w (key_window k) rows files, here) (omega (arith, all, later))
      | inr other ↦
          let before = failures_elsewhere k w rows win.0 (ground arith) in
          let rest = failures-replay k files win.1 asc.1 in
          rw (rows_of-cons w (key_window k) rows files, other) (omega (arith, all, before, rest))
    ]
