-- ===== src/Stream/Candidates.antt =====
-- Which windows a tick scans.
use sdw_lab_benchmarks.Prelude.{
  ℕ, zero, suc, ◌≤◌, true, ◌&&◌, ◌≡◌, ◌⊎◌, refl, arith, ◌∙◌, Option, none, some, List, [], ◌∷◌,
  keys, contains, contains-add, contains-keep, keep-IsDistinct, add-IsDistinct, add, IsDistinct,
  keep, leb, ltb, contains-sort_by_self, sort_by_self-IsDistinct, nat_eq, Bool-cases, inl, inr,
  if◌then◌else◌,
}
use sdw_lab_benchmarks.Stream.Batch.{Directory, is_new, new_windows, max_from, candidates}

pub contains-new_windows :
    (last : Option ℕ) (dir : Directory) (v : ℕ)
    → contains (new_windows last dir) v ≡ (is_new last v && contains (keys dir) v)
contains-new_windows last dir v =
    contains-sort_by_self leb v (keep (is_new last) (keys dir))
    ∙ contains-keep (is_new last) (keys dir) v

-- The candidates are the new windows, and perhaps one more window of the directory.
candidates-cases :
    (last : Option ℕ) (dir : Directory) (w : ℕ) (ws : List ℕ)
    → (candidates last dir w ws ≡ w ∷ ws)
      ⊎ ((back : ℕ) × (contains (keys dir) back ≡ true)
          × (candidates last dir w ws ≡ add back (w ∷ ws)))
unfolding candidates
candidates-cases none dir w ws = inl refl
candidates-cases (some last) dir zero ws = inl refl
candidates-cases (some last) dir (suc w) ws = elim (Bool-cases (contains (keys dir) w)) [
  | inl there ↦ inr (w, there, rw there)
  | inr not_there ↦ inl (rw not_there)
]

max_from-le : (m : ℕ) (ws : List ℕ) → m ≤ max_from m ws
max_from-le m [] = omega arith
max_from-le m (w ∷ ws) = ground (arith, max_from-le (if ltb m w then w else m) ws)

mem-le-max_from : (v m : ℕ) (ws : List ℕ) → contains ws v ≡ true → v ≤ max_from m ws
unfolding contains
mem-le-max_from v m [] h = absurd (ground arith)
mem-le-max_from v m (w ∷ ws) h = ground (
  arith,
  mem-le-max_from v (if ltb m w then w else m) ws,
  max_from-le (if ltb m w then w else m) ws,
)

max_from-cases : (m : ℕ) (ws : List ℕ) → (max_from m ws ≡ m) ⊎ (contains ws (max_from m ws) ≡ true)
unfolding contains
max_from-cases m [] = inl refl
max_from-cases m (w ∷ ws) = ground (arith, max_from-cases (if ltb m w then w else m) ws)

module _ (last : Option ℕ) (dir : Directory) (w : ℕ) (ws : List ℕ)
    (new : new_windows last dir ≡ w ∷ ws) where
  contains-news : (v : ℕ) → contains (w ∷ ws) v ≡ (is_new last v && contains (keys dir) v)
  contains-news v = rw new at (contains-new_windows last dir v)

  -- Every new window of the directory is a candidate,
  pub new-candidate :
      (v : ℕ)
      → contains (keys dir) v ≡ true
      → is_new last v ≡ true
      → contains (candidates last dir w ws) v ≡ true
  new-candidate v there isnew = elim (candidates-cases last dir w ws) [
    | inl e ↦ rw e (ground (arith, contains-news v))
    | inr (back, _, e) ↦ rw e (ground (arith, contains-news v, contains-add back v (w ∷ ws)))
  ]

  -- every candidate is a window of the directory,
  pub candidate-in_dir :
      (v : ℕ) → contains (candidates last dir w ws) v ≡ true → contains (keys dir) v ≡ true
  candidate-in_dir v h = elim (candidates-cases last dir w ws) [
    | inl e ↦ let h' = rw e at h in ground (arith, contains-news v)
    | inr (back, there, e) ↦
        let h' = rw e at h in ground (arith, contains-news v, contains-add back v (w ∷ ws))
  ]

  -- none twice.
  pub candidates-IsDistinct : IsDistinct (keys dir) → IsDistinct (candidates last dir w ws)
  candidates-IsDistinct d =
      let news =
        sort_by_self-IsDistinct leb (keep (is_new last) (keys dir))
          (keep-IsDistinct (is_new last) (keys dir) d) in
      let news' : IsDistinct (w ∷ ws) = rw new at news in
      elim (candidates-cases last dir w ws) [
        | inl e ↦ rw e news'
        | inr (back, _, e) ↦ rw e (add-IsDistinct back (w ∷ ws) news')
      ]

  head_candidate : contains (candidates last dir w ws) w ≡ true
  unfolding contains
  head_candidate = let isnew = contains-news w in new-candidate w (ground arith) (ground arith)

  -- The window recorded as processed is a candidate, and no candidate is later.
  pub last_candidate :
      contains (candidates last dir w ws) (max_from w (candidates last dir w ws)) ≡ true
  last_candidate = elim (max_from-cases w (candidates last dir w ws)) [
    | inl e ↦ rw e head_candidate
    | inr h ↦ h
  ]

  pub candidate-le :
      (v : ℕ)
      → contains (candidates last dir w ws) v ≡ true
      → v ≤ max_from w (candidates last dir w ws)
  candidate-le v = mem-le-max_from v w (candidates last dir w ws)
