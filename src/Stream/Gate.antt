-- ===== src/Stream/Gate.antt =====
-- When the gate passes an arm's file.
use sdw_lab_benchmarks.Prelude.{
  true, false, ◌||◌, ◌≡◌, ◌↔◌, refl, arith, ◌∙◌, Option, none, some, List, [], ◌∷◌, ◌++◌, keys,
  contains, is_empty, contains-add, contains-keys-insert, contains-set_difference, is_empty_iff,
  contains-sort_by_self, IsDistinct, set_difference, sort_by, nat_eq, string_eq, triple_eq,
  Bool-cases, inl, inr, triple_beq_iff,
}
use sdw_lab_benchmarks.Stream.Corpus.{Key}
use sdw_lab_benchmarks.Stream.Batch.{Alert, alert_key}
use sdw_lab_benchmarks.Stream.Once.{alert_keys}
use sdw_lab_benchmarks.Stream.Compare.{
  Loaded, nothing_loaded, load_row, load_rows, load_alert_keys, key_le, compare_arm, exit_status,
}

contains-load_rows :
    (k : Key) (s : Loaded) (rows : List Alert)
    → contains (load_rows s rows).keys k ≡ (contains (alert_keys rows) k || contains s.keys k)
unfolding load_rows load_row contains
contains-load_rows k s [] = refl
contains-load_rows k s (row ∷ rows) =
    ground
      (arith, contains-load_rows k (load_row s row) rows, contains-add (alert_key row) k s.keys)

-- No key of the rows has a row already.
abbrev IsFresh : Loaded → List Alert → Type 0
IsFresh s rows =
    (k : Key) → contains (alert_keys rows) k ≡ true → contains (keys s.rows_by_key) k ≡ false

is_empty-append {ℓ} : {A : Type ℓ} (xs : List A) (x : A) → is_empty (xs ++ x ∷ []) ≡ false
is_empty-append [] x = refl
is_empty-append (y ∷ xs) x = refl

no_duplicates_iff :
    (s : Loaded) (rows : List Alert)
    → (is_empty (load_rows s rows).duplicates ≡ true)
      ↔ ((is_empty s.duplicates ≡ true) × IsDistinct (alert_keys rows) × IsFresh s rows)
unfolding load_rows contains
no_duplicates_iff s [] = (λ h. (h, tt, λ k c. absurd cc), λ h. h.0)
no_duplicates_iff s (row ∷ rows) =
    let rest = no_duplicates_iff (load_row s row) rows in
    let same = (triple_beq_iff (alert_key row) (alert_key row)).1 refl in
    let kept = λ (k : Key). contains-keys-insert (alert_key row) k row s.rows_by_key in
    elim (Bool-cases (contains (keys s.rows_by_key) (alert_key row))) [
      | inl old ↦
          let some_duplicate = is_empty-append s.duplicates (alert_key row) in
          (
            λ h. absurd (let h' = (rest.0 h).0 in unfold load_row in ground (arith, h')),
            λ (_, _, fresh). absurd (ground (arith, fresh (alert_key row))),
          )
      | inr new ↦ (
        λ h.
            let (clean, distinct, fresh) = rest.0 h in
            (
              unfold load_row in ground (arith, clean),
              (
                unfold load_row in ground (arith, fresh (alert_key row), kept (alert_key row)),
                distinct,
              ),
              λ k c.
                  unfold load_row in
                  ground (arith, triple_beq_iff k (alert_key row), fresh k, kept k, new),
            ),
        λ (clean, distinct, fresh). rest.1 (
          (unfold load_row in ground (arith, clean)),
          distinct.1,
          λ k c.
              unfold load_row in
              ground (arith, fresh k, kept k, triple_beq_iff k (alert_key row), distinct.0),
        ),
      )
    ]

-- An alerts file with the keys of the ground truth, each once.
pub record IsExact (gt_keys : List Key) (rows : List Alert) : Type 0 where
  pub distinct : IsDistinct (alert_keys rows)
  pub same : (k : Key) → contains (alert_keys rows) k ≡ contains gt_keys k

no_difference_iff :
    (xs ys : List Key)
    → (is_empty (sort_by key_le (set_difference xs ys)) ≡ true)
      ↔ ((k : Key) → contains xs k ≡ true → contains ys k ≡ true)
no_difference_iff xs ys =
    let empty = is_empty_iff (sort_by key_le (set_difference xs ys)) in
    let member = λ (k : Key).
      contains-sort_by_self key_le k (set_difference xs ys) ∙ contains-set_difference xs ys k in
    (
      λ h k c. ground (arith, empty.0 h k, member k),
      λ h. empty.1 (λ k. ground (arith, member k, h k)),
    )

module _ (gt_keys : List Key) (rows : List Alert) where
  contains-loaded :
      (k : Key) → contains (load_rows nothing_loaded rows).keys k ≡ contains (alert_keys rows) k
  unfolding contains
  contains-loaded k = let all = contains-load_rows k nothing_loaded rows in ground arith

  identical_iff : ((compare_arm (some rows) gt_keys).identical ≡ true) ↔ IsExact gt_keys rows
  unfolding compare_arm load_alert_keys
  identical_iff =
      let loaded = (load_rows nothing_loaded rows).keys in
      let missing = no_difference_iff gt_keys loaded in
      let extra = no_difference_iff loaded gt_keys in
      let once = no_duplicates_iff nothing_loaded rows in
      (
        λ h. record {
          distinct = (once.0 (ground arith)).1;
          same = λ k.
              ground
                (arith, contains-loaded k, missing.0 (ground arith) k, extra.0 (ground arith) k);
        },
        λ x.
            let nothing_missing = missing.1 (λ k c. ground (arith, contains-loaded k, x.same k)) in
            let nothing_extra = extra.1 (λ k c. ground (arith, contains-loaded k, x.same k)) in
            let no_duplicate = once.1 (refl, x.distinct, λ k c. unfold contains in refl) in
            ground arith,
      )

-- With `--arm batch`, the gate exits with status 0 exactly when the arm's file exists and its keys
-- are those of the ground truth, each on one line.
pub exit_status-eq-zero_iff :
    (file : Option (List Alert)) (gt_keys : List Key)
    → (exit_status (compare_arm file gt_keys) ≡ 0)
      ↔ ((rows : List Alert) × (file ≡ some rows) × IsExact gt_keys rows)
unfolding exit_status
exit_status-eq-zero_iff none gt_keys =
    (λ h. absurd (unfold compare_arm in cc), λ (rows, e, x). absurd cc)
exit_status-eq-zero_iff (some rows) gt_keys = (
  λ h. (rows, refl, (identical_iff gt_keys rows).0 (unfold compare_arm in ground arith)),
  λ (rows', e, x).
      let q : rows' ≡ rows = cc in
      let same = (identical_iff gt_keys rows).1 (rw q at x) in unfold compare_arm in ground arith,
)
