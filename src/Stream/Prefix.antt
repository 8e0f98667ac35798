-- ===== src/Stream/Prefix.antt =====
-- A directory that holds the first files of a replay.
use sdw_lab_benchmarks.Prelude.{
  ℕ, ◌<◌, ◌≤◌, true, false, ◌||◌, ◌≡◌, refl, arith, List, [], ◌∷◌, ◌++◌, keys, contains, IsDistinct,
  All, lookup, leb, Bool-cases, inl, inr, nat_eq, ◌∙◌, ap, sym,
}
use sdw_lab_benchmarks.Stream.Corpus.{Event, Key, failure_threshold}
use sdw_lab_benchmarks.Stream.Truth.{failures}
use sdw_lab_benchmarks.Stream.Land.{WindowFile}
use sdw_lab_benchmarks.Stream.Landed.{events, IsWindow, Ascending, IsReplayOf}
use sdw_lab_benchmarks.Stream.Batch.{Directory, rows_of}
use sdw_lab_benchmarks.Stream.Windows.{key_window, rows_of-cons, failures-replay}

module _ (pending : List WindowFile) where
  contains-keys-append :
      (dir : Directory) (v : ℕ)
      → contains (keys (dir ++ pending)) v ≡ (contains (keys dir) v || contains (keys pending) v)
  unfolding contains
  contains-keys-append [] v = refl
  contains-keys-append ((w, rows) ∷ dir) v = ground (arith, contains-keys-append dir v)

  rows_of-append :
      (dir : Directory) (v : ℕ)
      → contains (keys dir) v ≡ true
      → rows_of (dir ++ pending) v ≡ rows_of dir v
  unfolding contains
  rows_of-append [] v h = absurd (ground arith)
  rows_of-append ((w, rows) ∷ dir) v h = ground (
    arith,
    rows_of-cons w v rows dir,
    rows_of-cons w v rows (dir ++ pending),
    rows_of-append dir v,
  )

  windows-left : (dir : Directory) → All IsWindow (dir ++ pending) → All IsWindow dir
  windows-left [] h = tt
  windows-left (f ∷ dir) h = (h.0, windows-left dir h.1)

lt_of_All :
    (w v : ℕ) (files : List WindowFile)
    → All (λ (f : WindowFile). w < f.0) files
    → contains (keys files) v ≡ true
    → w < v
unfolding contains
lt_of_All w v [] h m = absurd (ground arith)
lt_of_All w v (f ∷ files) h m = ground (arith, lt_of_All w v files h.1)

not_mem_of_All :
    (w : ℕ) (files : List WindowFile)
    → All (λ (f : WindowFile). w < f.0) files
    → contains (keys files) w ≡ false
unfolding contains
not_mem_of_All w [] h = refl
not_mem_of_All w (f ∷ files) h = ground (arith, not_mem_of_All w files h.1)

Ascending-IsDistinct : (files : List WindowFile) → Ascending files → IsDistinct (keys files)
Ascending-IsDistinct [] a = tt
Ascending-IsDistinct (f ∷ files) a = (not_mem_of_All f.0 files a.0, Ascending-IsDistinct files a.1)

landed_first :
    (pending dir : List WindowFile) (m v : ℕ)
    → Ascending (dir ++ pending)
    → contains (keys dir) m ≡ true
    → contains (keys pending) v ≡ true
    → m < v
unfolding contains
landed_first pending [] m v a hm hv = absurd (ground arith)
landed_first pending (f ∷ dir) m v a hm hv = ground (
  arith,
  landed_first pending dir m v a.1,
  lt_of_All f.0 v (dir ++ pending) a.0,
  contains-keys-append pending dir v,
)

rows_of-missing :
    (files : List WindowFile) (v : ℕ) → contains (keys files) v ≡ false → rows_of files v ≡ []
unfolding contains
rows_of-missing [] v h = unfold rows_of lookup in refl
rows_of-missing ((w, rows) ∷ files) v h =
    ground (arith, rows_of-cons w v rows files, rows_of-missing files v)

Ascending-left :
    (pending dir : List WindowFile) → Ascending (dir ++ pending) → IsDistinct (keys dir)
Ascending-left pending [] a = tt
Ascending-left pending (f ∷ dir) a = ground (
  arith,
  not_mem_of_All f.0 (dir ++ pending) a.0,
  contains-keys-append pending dir f.0,
  Ascending-left pending dir a.1,
)

not_landed_twice :
    (dir : Directory) (f : WindowFile) (rest : List WindowFile)
    → Ascending (dir ++ f ∷ rest)
    → contains (keys dir) f.0 ≡ false
unfolding contains
not_landed_twice [] f rest a = refl
not_landed_twice (g ∷ dir) f rest a = ground (
  arith,
  not_landed_twice dir f rest a.1,
  not_mem_of_All g.0 (dir ++ f ∷ rest) a.0,
  contains-keys-append (f ∷ rest) dir g.0,
)

pub next_file-fresh :
    (es : List Event) (dir : Directory) (f : WindowFile) (rest : List WindowFile)
    → IsReplayOf es (dir ++ f ∷ rest)
    → contains (keys dir) f.0 ≡ false
next_file-fresh es dir f rest r = not_landed_twice dir f rest r.ascending

-- A replay's files, of which `dir` has landed and `pending` has not.
module _ (es : List Event) (dir pending : List WindowFile)
    (r : IsReplayOf es (dir ++ pending)) where
  pub landed_windows : All IsWindow dir
  landed_windows = windows-left pending dir r.windows

  pub landed-IsDistinct : IsDistinct (keys dir)
  landed-IsDistinct = Ascending-left pending dir r.ascending

  -- The file of a landed window holds all failures of the window's keys.
  pub failures-landed :
      (k : Key)
      → contains (keys dir) (key_window k) ≡ true
      → failures k (events (rows_of dir (key_window k))) ≡ failures k es
  failures-landed k h =
      ap (λ rows. failures k (events rows)) (sym (rows_of-append pending dir (key_window k) h))
      ∙ sym (failures-replay k (dir ++ pending) r.windows r.ascending)
      ∙ ap (failures k) r.contents

  -- A key with enough failures has its window among the files.
  pub alert_window :
      (k : Key)
      → leb failure_threshold (failures k es) ≡ true
      → contains (keys (dir ++ pending)) (key_window k) ≡ true
  alert_window k h = elim (Bool-cases (contains (keys (dir ++ pending)) (key_window k))) [
    | inl there ↦ there
    | inr missing ↦
        let all = failures-replay k (dir ++ pending) r.windows r.ascending in
        let none_there =
          ap (λ rows. failures k (events rows))
            (rows_of-missing (dir ++ pending) (key_window k) missing) in
        let same = ap (failures k) r.contents in absurd (ground arith)
  ]

  -- A window of the replay no later than a landed one has landed.
  pub landed_of_le :
      (m v : ℕ)
      → contains (keys dir) m ≡ true
      → contains (keys (dir ++ pending)) v ≡ true
      → v ≤ m
      → contains (keys dir) v ≡ true
  landed_of_le m v hm hv le =
      ground
        (arith, landed_first pending dir m v r.ascending hm, contains-keys-append pending dir v)
