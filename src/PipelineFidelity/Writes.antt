-- ===== src/PipelineFidelity/Writes.antt =====
-- What a write at a dotted path changes.
use sdw_lab_benchmarks.Prelude.{
  ◌⊎◌, String, Bool, true, false, ◌≡◌, refl, arith, Option, none, some, List, [], ◌∷◌, ◌==◌,
  string_eq, eq_iff, if◌then◌else◌, Bool-cases, inl, inr, ◌∙◌,
}
use sdw_lab_benchmarks.PipelineFidelity.Events.{
  Json, leaf, object, Members, empty, member, find, put, get_segments, enter, set_segments,
}

-- Neither path is a beginning of the other.
abbrev pub diverge : List String → List String → Bool
diverge [] q = false
diverge (s ∷ p) [] = false
diverge (s ∷ p) (t ∷ q) = let rest = diverge p q in if s == t then rest else true

module _ {L : Type 0} where
  -- A value that is no dict sits on the way.
  unfoldable pub is_blocked : Members L → List String → Bool
  is_blocked ms [] = false
  is_blocked ms (seg ∷ []) = false
  is_blocked ms (seg ∷ next ∷ segs) = elim (enter (find seg ms)) [
    | none ↦ true
    | some inner ↦ is_blocked inner (next ∷ segs)
  ]

  pub find-put :
      (k j : String) (v : Json L) (ms : Members L)
      → find k (put j v ms) ≡ (if k == j then some v else find k ms)
  unfolding find put
  find-put k j v empty = refl
  find-put k j v (member i w ms) =
      ground (arith, find-put k j v ms, eq_iff k j, eq_iff j i, eq_iff k i)

  find-cases :
      (x : Option (Json L))
      → (x ≡ none) ⊎ ((l : L) × (x ≡ some (leaf l))) ⊎ ((ms : Members L) × (x ≡ some (object ms)))
  find-cases none = inl refl
  find-cases (some (leaf l)) = inr (inl (l, refl))
  find-cases (some (object ms)) = inr (inr (ms, refl))

  find-put_same : (k : String) (v : Json L) (ms : Members L) → find k (put k v ms) ≡ some v
  find-put_same k v ms = let same = (eq_iff k k).1 refl in ground (arith, find-put k k v ms)

  find-put_other :
      (k j : String) (v : Json L) (ms : Members L)
      → (j == k) ≡ false
      → find k (put j v ms) ≡ find k ms
  find-put_other k j v ms other = ground (arith, find-put k j v ms, eq_iff k j, eq_iff j k)

  -- A write makes the path lead to the value, unless a value that is no dict sits on the way; then
  -- the path leads nowhere.
  pub get_segments-set_segments :
      (ms : Members L) (s : String) (p : List String) (v : Json L)
      → get_segments (object (set_segments ms (s ∷ p) v)) (s ∷ p)
        ≡ (if is_blocked ms (s ∷ p) then none else some v)
  unfolding set_segments is_blocked get_segments enter
  get_segments-set_segments ms s [] v = rw (find-put_same s v ms, get_segments) refl
  get_segments-set_segments ms s (t ∷ p) v = elim (find-cases (find s ms)) [
    | inl e ↦
        rw (e, set_segments, is_blocked, find-put_same, get_segments)
          (get_segments-set_segments empty t p v)
    | inr (inl (l, e)) ↦ rw (e, set_segments, is_blocked, get_segments) (rw (e, get_segments) refl)
    | inr (inr (inner, e)) ↦
        rw (e, set_segments, is_blocked, find-put_same, get_segments)
          (get_segments-set_segments inner t p v)
  ]

  get_empty :
      (p q : List String) → diverge p q ≡ true → get_segments {L = L} (object empty) q ≡ none
  unfolding get_segments find
  get_empty [] q d = absurd cc
  get_empty (s ∷ p) [] d = absurd cc
  get_empty (s ∷ p) (t ∷ q) d = refl

  -- A write leaves every path that diverges from it.
  pub get_segments-set_segments_other :
      (ms : Members L) (p q : List String) (v : Json L)
      → diverge p q ≡ true
      → get_segments (object (set_segments ms p v)) q ≡ get_segments (object ms) q
  unfolding set_segments get_segments enter
  get_segments-set_segments_other ms [] q v d = absurd cc
  get_segments-set_segments_other ms (s ∷ p) [] v d = absurd cc
  get_segments-set_segments_other ms (s ∷ []) (t ∷ q) v d =
      rw (find-put_other t s v ms (ground arith), get_segments) refl
  get_segments-set_segments_other ms (s ∷ s' ∷ p) (t ∷ q) v d = elim (Bool-cases (s == t)) [
    | inr other ↦ elim (find-cases (find s ms)) [
      | inl e ↦ rw (e, set_segments, find-put_other t s _ ms other, get_segments) refl
      | inr (inl (l, e)) ↦ rw (e, set_segments) refl
      | inr (inr (inner, e)) ↦
          rw (e, set_segments, find-put_other t s _ ms other, get_segments) refl
    ]
    | inl same ↦
        let d' : diverge (s' ∷ p) q ≡ true = rw same at d in
        let k : s ≡ t = (eq_iff s t).0 same in
        rw (← k) (elim (find-cases (find s ms)) [
          | inl e ↦
              let inside = get_segments-set_segments_other empty (s' ∷ p) q v d' in
              let nothing = get_empty (s' ∷ p) q d' in
              rw (e, set_segments, find-put_same, get_segments) (inside ∙ nothing)
          | inr (inl (l, e)) ↦ rw (e, set_segments) refl
          | inr (inr (inner, e)) ↦
              rw (e, set_segments, find-put_same, get_segments)
                (get_segments-set_segments_other inner (s' ∷ p) q v d')
        ])
  ]

  pub is_blocked-set :
      (ms : Members L) (p q : List String) (v : Json L)
      → diverge p q ≡ true
      → is_blocked (set_segments ms p v) q ≡ is_blocked ms q
  unfolding set_segments is_blocked enter
  is_blocked-set ms [] q v d = absurd cc
  is_blocked-set ms (s ∷ p) [] v d = absurd cc
  is_blocked-set ms (s ∷ p) (t ∷ []) v d = refl
  is_blocked-set ms (s ∷ []) (t ∷ t' ∷ q) v d =
      rw (find-put_other t s v ms (ground arith), is_blocked) refl
  is_blocked-set ms (s ∷ s' ∷ p) (t ∷ t' ∷ q) v d = elim (Bool-cases (s == t)) [
    | inr other ↦ elim (find-cases (find s ms)) [
      | inl e ↦ rw (e, set_segments, find-put_other t s _ ms other, is_blocked) refl
      | inr (inl (l, e)) ↦ rw (e, set_segments) refl
      | inr (inr (inner, e)) ↦ rw (e, set_segments, find-put_other t s _ ms other, is_blocked) refl
    ]
    | inl same ↦
        let d' : diverge (s' ∷ p) (t' ∷ q) ≡ true = rw same at d in
        let k : s ≡ t = (eq_iff s t).0 same in
        rw (← k) (elim (find-cases (find s ms)) [
          | inl e ↦
              rw (e, set_segments, find-put_same, is_blocked)
                (is_blocked-set empty (s' ∷ p) (t' ∷ q) v d')
          | inr (inl (l, e)) ↦ rw (e, set_segments) refl
          | inr (inr (inner, e)) ↦
              rw (e, set_segments, find-put_same, is_blocked)
                (is_blocked-set inner (s' ∷ p) (t' ∷ q) v d')
        ])
  ]
