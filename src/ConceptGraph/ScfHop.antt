-- ===== src/ConceptGraph/ScfHop.antt =====
-- Hop 5', security-context-graph/scg.py (`hop5prime_scf`): the SCF controls, from the parsed file,
-- and how far the wall's defenses and attacks reach them.
use sdw_lab_benchmarks.Prelude.{
  ℕ, zero, suc, String, Bool, not, ◌||◌, Option, none, some, List, [], ◌∷◌, Dict, ◌==◌, length, map,
  count_if, any_of, lookup, insert, contains, add, to_set, string_eq, if◌then◌else◌,
}
use sdw_lab_benchmarks.Prelude.Edits.{or_else, ◌⧺◌}
use sdw_lab_benchmarks.ConceptGraph.Ontology.{text_of}
use sdw_lab_benchmarks.ConceptGraph.Scaffold.{Scg, node, edge, number, flag, Build, record_figure}
use sdw_lab_benchmarks.ConceptGraph.WallHop.{Attacks, attack, attack_id, base}

pub record Framework : Type 0 where
  pub fid : String
  pub name : Option String
  pub curated : Option String

-- `mapping` is the dict `map`; a missing one is empty.
pub record ScfControl : Type 0 where
  pub scf : Option String
  pub cid : String
  pub did : Option ℕ
  pub name : String
  pub cons : Option String
  pub consw : Option String
  pub mapping : Dict String (List String)

pub record ScfFile : Type 0 where
  pub frameworks : List Framework
  pub domains : List String
  pub controls : List ScfControl

abbrev pub scf_file : String
scf_file = "scf-mapping/data/scf_sankey.json (LOCAL, CC-BY-ND -- not redistributed)"

abbrev pub strm_note : String
strm_note = "NIST IR 8477 Set Theory Relationship Mapping"

abbrev pub attack_note : String
attack_note =
    "SCF's ATT&CK layer is CTID's NIST 800-53->ATT&CK mapping re-routed through SCF's own 800-53 crosswalk (uniform Intersects-With/strength-3); SCF adds no independent ATT&CK signal"

-- `fw_by_fid`
unfoldable pub fw_by_fid : List Framework → Dict String Framework → Dict String Framework
unfolding insert
fw_by_fid [] d = d
fw_by_fid (f ∷ fs) d = fw_by_fid fs (insert f.fid f d)

abbrev pub nth : List String → ℕ → Option String
nth [] n = none
nth (d ∷ ds) zero = some d
nth (d ∷ ds) (suc n) = nth ds n

-- `domains[did] if isinstance(did, int) and did < len(domains) else None`
abbrev pub domain_of : List String → Option ℕ → Option String
domain_of domains none = none
domain_of domains (some did) = nth domains did

-- `c.get("scf") or f"cid{c['cid']}"`
abbrev pub scf_code : ScfControl → String
scf_code c = or_else (text_of c.scf) ("cid" ⧺ c.cid)

abbrev pub scf_id : ScfControl → String
scf_id c = "scf:" ⧺ scf_code c

unfoldable pub add_scf_control : List String → ScfControl → Scg → Scg
unfolding node
add_scf_control domains c scg =
    node (scf_id c) "scf_control" c.name
      (("consensus", c.cons) ∷ ("consensus_w", c.consw) ∷ ("domain", domain_of domains c.did) ∷ [])
      scg

abbrev pub framework_id : String → String
framework_id fid = "scf:framework/" ⧺ fid

abbrev pub framework_label : String → Framework → String
framework_label fid fw = elim fw.name [ none ↦ fid | some name ↦ name ]

unfoldable pub add_framework : String → String → Option Framework → Scg → Scg
unfolding node edge
add_framework cnode fid none scg = scg
add_framework cnode fid (some fw) scg =
    edge cnode (framework_id fid) "maps_to" "A" "scf_strm" scf_file strm_note (
      node (framework_id fid) "framework" (framework_label fid fw) (("curated", fw.curated) ∷ [])
        scg)

-- The loop over the mapped frameworks; the attacks, "36", are passed over.
unfoldable pub add_frameworks :
    Dict String Framework → String → Dict String (List String) → Scg → Scg
unfolding add_framework lookup
add_frameworks fws cnode [] scg = scg
add_frameworks fws cnode ((fid, codes) ∷ mp) scg =
    add_frameworks fws cnode mp
      (if fid == "36" then scg else add_framework cnode fid (lookup fid fws) scg)

pub record ScfLoop : Type 0 where
  pub scg : Scg
  pub scf_attack_controls : ℕ
  pub scf_attack_ids : List String
  pub ctl_to_attacks : Attacks

-- The loop over the attacks of a control; `scf_attack_ids` and `scf_attack_set` are one set.
unfoldable pub add_mitigated_by : String → List String → ScfLoop → ScfLoop
unfolding edge attack add
add_mitigated_by cnode [] s = s
add_mitigated_by cnode (tid ∷ tids) s = add_mitigated_by cnode tids (record s {
  scg =
      edge (attack_id tid) cnode "mitigated_by" "A" "ctid_reroute" scf_file attack_note
        (attack tid "" s.scg);
  scf_attack_ids = add tid s.scf_attack_ids;
})

unfoldable pub add_attack_leg : ScfControl → List String → ScfLoop → ScfLoop
unfolding add_mitigated_by insert to_set
add_attack_leg c [] s = s
add_attack_leg c (tid ∷ tids) s = add_mitigated_by (scf_id c) (tid ∷ tids) (record s {
  scf_attack_controls = suc s.scf_attack_controls;
  ctl_to_attacks = insert (scf_code c) (to_set (tid ∷ tids) []) s.ctl_to_attacks;
})

-- `mp.get("36")`, where a missing one is as an empty one
unfoldable pub attack_leg : ScfControl → List String
unfolding lookup
attack_leg c = elim (lookup "36" c.mapping) [ none ↦ [] | some atks ↦ atks ]

-- The body of the loop over the controls.
unfoldable pub load_control : List String → Dict String Framework → ScfControl → ScfLoop → ScfLoop
unfolding add_scf_control add_frameworks add_attack_leg attack_leg
load_control domains fws c s =
    add_attack_leg c (attack_leg c)
      (record s { scg = add_frameworks fws (scf_id c) c.mapping (add_scf_control domains c s.scg) })

unfoldable pub load_controls :
    List String → Dict String Framework → List ScfControl → ScfLoop → ScfLoop
unfolding load_control
load_controls domains fws [] s = s
load_controls domains fws (c ∷ cs) s = load_controls domains fws cs (load_control domains fws c s)

-- `{base(t) for t in ts}`
unfoldable pub bases : List String → List String
unfolding to_set base
bases ts = to_set (map base ts) []

-- `reached_def`: the defenses with an attack that the SCF layer names, or of which it names the base.
unfoldable pub count_reached : List String → Attacks → ℕ
unfolding contains base bases
count_reached scf d =
    count_if
      (λ (p : String × List String).
        any_of (λ a. contains scf a || contains (bases scf) (base a)) p.1)
      d

-- `controls_reached`: the controls with an attack of the wall, or with the base of one.
unfoldable pub count_controls : List String → Attacks → ℕ
unfolding contains base bases
count_controls wall d =
    count_if
      (λ (p : String × List String).
        any_of (λ a. contains wall a || contains (bases wall) (base a)) p.1)
      d

-- `wall_attacks |= atks` over the values
unfoldable pub wall_attacks : Attacks → List String → List String
unfolding to_set
wall_attacks [] seen = seen
wall_attacks ((d, atks) ∷ rest) seen = wall_attacks rest (to_set atks seen)

-- The attacks of the wall that no control reaches.
unfoldable pub count_gaps : List String → List String → ℕ
unfolding contains base bases
count_gaps scf attacks =
    count_if (λ a. not (contains scf a || contains (bases scf) (base a))) attacks

unfoldable pub scf_loop : ScfFile → Scg → ScfLoop
unfolding load_controls fw_by_fid
scf_loop file scg =
    load_controls file.domains (fw_by_fid file.frameworks []) file.controls
      (record { scg = scg; scf_attack_controls = 0; scf_attack_ids = []; ctl_to_attacks = [] })

-- The figures of the reach.
unfoldable pub record_reach : Attacks → ScfLoop → Build → Build
unfolding count_reached count_controls wall_attacks count_gaps record_figure
record_reach def2attacks s b =
    let wall = wall_attacks def2attacks [] in
    record_figure "wall_attack_gaps" (number (count_gaps s.scf_attack_ids wall)) (
      record_figure "scf_controls_reached" (number (count_controls wall s.ctl_to_attacks)) (
        record_figure "wall_defenses_reaching_scf"
          (number (count_reached s.scf_attack_ids def2attacks)) b))

-- `hop5prime_scf`; `none` where the file does not exist
unfoldable pub hop5prime_scf : Option ScfFile → Attacks → Build → Build
unfolding scf_loop record_reach record_figure
hop5prime_scf none def2attacks b = record_figure "scf_loaded" (flag Bool.false) b
hop5prime_scf (some file) def2attacks b =
    let s = scf_loop file b.scg in
    record_reach def2attacks s (
      record_figure "scf_attack_ids" (number (length s.scf_attack_ids)) (
        record_figure "scf_controls_attack" (number s.scf_attack_controls)
          (record_figure "scf_loaded" (flag Bool.true) (record b { scg = s.scg }))))
