-- ===== src/ConceptGraph/Reach.antt =====
-- The figures of the reach against each other.
use sdw_lab_benchmarks.Prelude.{
  Bool, ◌+◌, ◌≤◌, ◌≡◌, refl, arith, String, true, false, ◌||◌, List, [], ◌∷◌, ◌==◌, keys, insert,
  length, is_empty, any_of, count_if-le-length, All, contains, contains-keys-insert, add,
  length-add, contains-add, to_set, contains-to_set, string_eq, eq_iff, if◌then◌else◌, Bool-cases,
  inl, inr,
}
use sdw_lab_benchmarks.ConceptGraph.Ontology.{Ontology}
use sdw_lab_benchmarks.ConceptGraph.Scaffold.{Scg}
use sdw_lab_benchmarks.ConceptGraph.WallHop.{
  base, Attacks, attacks_of, MatrixRow, MatrixLoop, add_matrix_row, add_matrix_rows, matrix_loop,
}
use sdw_lab_benchmarks.ConceptGraph.ScfHop.{bases, count_reached, wall_attacks, count_gaps}

length-insert :
    (k : String) (v : List String) (d : Attacks)
    → length (insert k v d) ≡ (if contains (keys d) k then 0 else 1) + length d
unfolding insert contains
length-insert k v [] = refl
length-insert k v ((j, w) ∷ d) = ground (arith, length-insert k v d)

-- A defense has attacks.
abbrev HasAttacks : Attacks → Type 0
HasAttacks d = All (λ (p : String × List String). is_empty p.1 ≡ false) d

insert-HasAttacks :
    (k : String) (v : List String) (d : Attacks)
    → is_empty v ≡ false
    → HasAttacks d
    → HasAttacks (insert k v d)
unfolding insert
insert-HasAttacks k v [] h all = (h, tt)
insert-HasAttacks k v ((j, w) ∷ d) h all = elim (Bool-cases (k == j)) [
  | inl same ↦ rw (same) (h, all.1)
  | inr other ↦ rw (other) (all.0, insert-HasAttacks k v d h all.1)
]

add_not_empty : (x : String) (xs : List String) → is_empty (add x xs) ≡ false
unfolding add contains
add_not_empty x [] = refl
add_not_empty x (y ∷ xs) = ground arith

-- `defenses` are the keys of `def2attacks`.
record IsWall (s : MatrixLoop) : Type 0 where
  sizes : length s.defenses ≡ length s.def2attacks
  members : (x : String) → contains s.defenses x ≡ contains (keys s.def2attacks) x
  attacked : HasAttacks s.def2attacks

add_matrix_row-IsWall :
    (ont : Ontology) (r : MatrixRow) (s : MatrixLoop) → IsWall s → IsWall (add_matrix_row ont r s)
unfolding add_matrix_row
add_matrix_row-IsWall ont r s i =
    let atks = add r.off_tech_id (attacks_of r.d3fend_id s.def2attacks) in
    record {
      sizes = ground (
        arith,
        i.sizes,
        i.members r.d3fend_id,
        length-add r.d3fend_id s.defenses,
        length-insert r.d3fend_id atks s.def2attacks,
      );
      members = λ x. ground (
        arith,
        i.members x,
        contains-add r.d3fend_id x s.defenses,
        contains-keys-insert r.d3fend_id x atks s.def2attacks,
      );
      attacked =
          insert-HasAttacks r.d3fend_id atks s.def2attacks
            (add_not_empty r.off_tech_id (attacks_of r.d3fend_id s.def2attacks)) i.attacked;
    }

add_matrix_rows-IsWall :
    (ont : Ontology) (rows : List MatrixRow) (s : MatrixLoop)
    → IsWall s
    → IsWall (add_matrix_rows ont rows s)
unfolding add_matrix_rows
add_matrix_rows-IsWall ont [] s i = i
add_matrix_rows-IsWall ont (r ∷ rows) s i =
    add_matrix_rows-IsWall ont rows (add_matrix_row ont r s) (add_matrix_row-IsWall ont r s i)

matrix_loop-IsWall :
    (ont : Ontology) (rows : List MatrixRow) (scg : Scg) → IsWall (matrix_loop ont rows scg)
unfolding matrix_loop contains
matrix_loop-IsWall ont rows scg =
    add_matrix_rows-IsWall ont rows _ (record { sizes = refl; members = λ x. refl; attacked = tt })

-- At most all defenses of the wall reach the SCF layer.
pub reaching_le_defenses :
    (ont : Ontology) (rows : List MatrixRow) (scg : Scg) (exact : List String)
    → count_reached exact (matrix_loop ont rows scg).def2attacks
      ≤ length (matrix_loop ont rows scg).defenses
unfolding count_reached
reaching_le_defenses ont rows scg exact =
    let i = matrix_loop-IsWall ont rows scg in
    rw (i.sizes) (count_if-le-length _ (matrix_loop ont rows scg).def2attacks)

contains-wall_attacks :
    (d : Attacks) (seen : List String) (x : String)
    → contains (wall_attacks d seen) x
      ≡ (any_of (λ (p : String × List String). contains p.1 x) d || contains seen x)
unfolding wall_attacks
contains-wall_attacks [] seen x = refl
contains-wall_attacks ((j, atks) ∷ d) seen x =
    ground (arith, contains-wall_attacks d (to_set atks seen) x, contains-to_set atks seen x)

-- The attack or its base is among those named.
abbrev is_named : List String → String → Bool
is_named exact a = contains exact a || contains (bases exact) (base a)

gap_free :
    (exact atks : List String) (x : String)
    → count_gaps exact atks ≡ 0
    → contains atks x ≡ true
    → is_named exact x ≡ true
unfolding count_gaps contains
gap_free exact [] x none_left h = absurd cc
gap_free exact (a ∷ atks) x none_left h = elim (Bool-cases (x == a)) [
  | inl same ↦ rw ((eq_iff x a).0 same) (ground arith)
  | inr other ↦ gap_free exact atks x (ground arith) (ground arith)
]

all_reached :
    (exact : List String) (d : Attacks)
    → ((x : String)
        → any_of (λ (p : String × List String). contains p.1 x) d ≡ true
        → is_named exact x ≡ true)
    → HasAttacks d
    → count_reached exact d ≡ length d
unfolding count_reached contains
all_reached exact [] h all = refl
all_reached exact ((j, []) ∷ d) h all = absurd (ground arith)
all_reached exact ((j, a ∷ atks) ∷ d) h all =
    let head = h a (ground (arith, eq_iff a a)) in
    let rest = all_reached exact d (λ x e. h x (ground (arith, e))) all.1 in ground arith

-- Where no attack of the wall is a gap, every defense of the wall reaches the SCF layer.
pub gap_free_reaches :
    (ont : Ontology) (rows : List MatrixRow) (scg : Scg) (exact : List String)
    → count_gaps exact (wall_attacks (matrix_loop ont rows scg).def2attacks []) ≡ 0
    → count_reached exact (matrix_loop ont rows scg).def2attacks
      ≡ length (matrix_loop ont rows scg).defenses
unfolding contains
gap_free_reaches ont rows scg exact none_left =
    let i = matrix_loop-IsWall ont rows scg in
    let d = (matrix_loop ont rows scg).def2attacks in
    rw (i.sizes) (
      all_reached exact d
        (λ x e.
          gap_free exact (wall_attacks d []) x none_left
            (ground (arith, contains-wall_attacks d [] x)))
        i.attacked)
