-- ===== src/ConceptGraph/SkosCounts.antt =====
-- The figures of the SKOS hop against each other.
use sdw_lab_benchmarks.Prelude.{
  ◌+◌, ◌≡◌, refl, arith, String, Bool, true, false, ◌&&◌, ◌||◌, Option, none, some, List, [], ◌∷◌,
  ◌==◌, length, contains, length-add, contains-add, string_eq, eq_iff, Bool-cases, inl, inr,
}
use sdw_lab_benchmarks.ConceptGraph.Ontology.{Ontology, is_control, by_id, classify_d3f}
use sdw_lab_benchmarks.ConceptGraph.Scaffold.{Scg}
use sdw_lab_benchmarks.ConceptGraph.SkosHop.{
  Triple, ControlEnd, SkosLoop, one_control, control_end, count_relation, add_control_end, relate,
  skos_triples, skos_loop,
}

-- The kind is that of NIST 800-53.
abbrev is_nist : Option String → Bool
is_nist none = false
is_nist (some kind) = kind == "800-53"

-- The kind of a control end is the one of its control.
abbrev IsRight : Option ControlEnd → Type 0
unfolding is_control
IsRight none = Unit
IsRight (some c) = is_nist (is_control c.ctl) ≡ (c.kind == "800-53")

one_control-IsRight :
    (sid oid : String) (cs co : Option String)
    → is_control sid ≡ cs
    → is_control oid ≡ co
    → IsRight (one_control sid cs co oid)
unfolding one_control IsRight
one_control-IsRight sid oid none none e h = tt
one_control-IsRight sid oid none (some k) e h = rw (h) refl
one_control-IsRight sid oid (some k) none e h = rw (e) refl
one_control-IsRight sid oid (some k) (some l) e h = tt

control_end-IsRight : (t : Triple) → IsRight (control_end t)
unfolding control_end
control_end-IsRight (sid, pred, oid) = one_control-IsRight sid oid _ _ refl refl

-- The controls are those of the two kinds.
record IsSplit (s : SkosLoop) : Type 0 where
  sizes : length s.controls ≡ length s.c8053 + length s.ccci
  members : (x : String) → contains s.controls x ≡ (contains s.c8053 x || contains s.ccci x)
  nist : (x : String) → contains s.c8053 x ≡ true → is_nist (is_control x) ≡ true
  cci : (x : String) → contains s.ccci x ≡ true → is_nist (is_control x) ≡ false

count_relation-IsSplit :
    (ont : Ontology) (pred : String) (c : ControlEnd) (s : SkosLoop)
    → IsRight (some c)
    → IsSplit s
    → IsSplit (count_relation ont pred c s)
unfolding count_relation IsRight
count_relation-IsSplit ont pred c s right i =
    let moved : (x : String) → (x == c.ctl) ≡ true → is_nist (is_control x) ≡ (c.kind == "800-53") =
      λ x e. rw ((eq_iff x c.ctl).0 e) right in
    record {
      sizes = ground (
        arith,
        i.sizes,
        i.members c.ctl,
        i.nist c.ctl,
        i.cci c.ctl,
        length-add c.ctl s.controls,
        length-add c.ctl s.c8053,
        length-add c.ctl s.ccci,
        right,
      );
      members = λ x. ground (
        arith,
        i.members x,
        contains-add c.ctl x s.controls,
        contains-add c.ctl x s.c8053,
        contains-add c.ctl x s.ccci,
      );
      nist = λ x h.
          let same = moved x in
          ground (arith, i.nist x, contains-add c.ctl x s.c8053, eq_iff x c.ctl);
      cci = λ x h.
          let same = moved x in
          ground (arith, i.cci x, contains-add c.ctl x s.ccci, eq_iff x c.ctl);
    }

add_control_end-IsSplit :
    (ont : Ontology) (pred : String) (end : Option ControlEnd) (s : SkosLoop)
    → IsRight end
    → IsSplit s
    → IsSplit (add_control_end ont pred end s)
unfolding add_control_end
add_control_end-IsSplit ont pred none s right i = i
add_control_end-IsSplit ont pred (some c) s right i =
    elim (Bool-cases (classify_d3f (by_id ont c.d3f) == "defensive_technique")) [
      | inl technique ↦ rw (technique) (count_relation-IsSplit ont pred c s right i)
      | inr other ↦ rw (other) i
    ]

relate-IsSplit :
    (ont : Ontology) (ts : List Triple) (s : SkosLoop) → IsSplit s → IsSplit (relate ont ts s)
unfolding relate
relate-IsSplit ont [] s i = i
relate-IsSplit ont (t ∷ ts) s i =
    relate-IsSplit ont ts (add_control_end ont t.1 (control_end t) s)
      (add_control_end-IsSplit ont t.1 (control_end t) s (control_end-IsRight t) i)

skos_loop-IsSplit : (ont : Ontology) (scg : Scg) → IsSplit (skos_loop ont scg)
unfolding skos_loop contains
skos_loop-IsSplit ont scg =
    relate-IsSplit ont (skos_triples ont.graph []) _ (record {
      sizes = refl;
      members = λ x. refl;
      nist = λ x h. absurd cc;
      cci = λ x h. absurd cc;
    })

-- The controls that the hop counts are the 800-53 ones and the CCI ones, and none is both.
pub skos_controls_split :
    (ont : Ontology) (scg : Scg)
    → (length (skos_loop ont scg).controls
        ≡ length (skos_loop ont scg).c8053 + length (skos_loop ont scg).ccci)
      × ((x : String)
          → (contains (skos_loop ont scg).c8053 x && contains (skos_loop ont scg).ccci x) ≡ false)
skos_controls_split ont scg =
    let i = skos_loop-IsSplit ont scg in (i.sizes, λ x. ground (arith, i.nist x, i.cci x))
