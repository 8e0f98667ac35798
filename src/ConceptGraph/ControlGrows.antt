-- ===== src/ConceptGraph/ControlGrows.antt =====
-- The hops to the controls only add to the graph.
use sdw_lab_benchmarks.Prelude.{
  ◌≡◌, true, ◌==◌, String, Option, none, some, List, [], ◌∷◌, Dict, lookup, Bool-cases, inl, inr,
  string_eq, if◌then◌else◌,
}
use sdw_lab_benchmarks.ConceptGraph.Ontology.{Ontology, by_id, classify_d3f}
use sdw_lab_benchmarks.ConceptGraph.Scaffold.{Scg, has_node, edge, record_figure, Build}
use sdw_lab_benchmarks.ConceptGraph.Grows.{
  is_concept, is_rated, Grows, Grows-has_node, Grows-refl, Grows-trans, Grows-if, growing,
}
use sdw_lab_benchmarks.ConceptGraph.WallHop.{Attacks, attack, attack_id}
use sdw_lab_benchmarks.ConceptGraph.SkosHop.{
  Triple, ControlEnd, SkosLoop, control_end, add_relation, count_relation, add_control_end, relate,
  skos_triples, skos_loop, hop5_skos,
}
use sdw_lab_benchmarks.ConceptGraph.ScfHop.{
  fw_by_fid, Framework, ScfControl, ScfFile, scf_id, scf_file, attack_note, add_scf_control,
  add_framework, add_frameworks, ScfLoop, add_mitigated_by, add_attack_leg, attack_leg,
  load_control, load_controls, scf_loop, record_reach, hop5prime_scf,
}

add_relation-Grows :
    (ont : Ontology) (pred : String) (c : ControlEnd) (scg : Scg)
    → Grows scg (add_relation ont pred c scg)
unfolding add_relation is_concept is_rated
add_relation-Grows ont pred c scg = search growing depth 12

add_control_end-Grows :
    (ont : Ontology) (pred : String) (end : Option ControlEnd) (s : SkosLoop)
    → Grows s.scg (add_control_end ont pred end s).scg
unfolding add_control_end count_relation
add_control_end-Grows ont pred none s = Grows-refl s.scg
add_control_end-Grows ont pred (some c) s =
    Grows-if (λ (t : SkosLoop). t.scg) (classify_d3f (by_id ont c.d3f) == "defensive_technique") s
      (count_relation ont pred c s) (add_relation-Grows ont pred c s.scg)

relate-Grows :
    (ont : Ontology) (ts : List Triple) (s : SkosLoop) → Grows s.scg (relate ont ts s).scg
unfolding relate
relate-Grows ont [] s = Grows-refl s.scg
relate-Grows ont (t ∷ ts) s =
    Grows-trans (add_control_end-Grows ont t.1 (control_end t) s)
      (relate-Grows ont ts (add_control_end ont t.1 (control_end t) s))

pub hop5_skos-Grows : (ont : Ontology) (b : Build) → Grows b.scg (hop5_skos ont b).scg
unfolding hop5_skos skos_loop record_figure
hop5_skos-Grows ont b =
    relate-Grows ont (skos_triples ont.graph [])
      (record { scg = b.scg; dt_edges = []; controls = []; c8053 = []; ccci = []; techs = [] })

add_framework-Grows :
    (cnode fid : String) (fw : Option Framework) (scg : Scg)
    → has_node scg cnode ≡ true
    → Grows scg (add_framework cnode fid fw scg)
unfolding add_framework is_concept is_rated
add_framework-Grows cnode fid none scg h = Grows-refl scg
add_framework-Grows cnode fid (some fw) scg h = search growing depth 12

add_frameworks-Grows :
    (fws : Dict String Framework) (cnode : String) (mp : Dict String (List String)) (scg : Scg)
    → has_node scg cnode ≡ true
    → Grows scg (add_frameworks fws cnode mp scg)
unfolding add_frameworks
add_frameworks-Grows fws cnode [] scg h = Grows-refl scg
add_frameworks-Grows fws cnode ((fid, codes) ∷ mp) scg h =
    let fw = lookup fid fws in
    let next = add_framework cnode fid fw scg in
    let step : Grows scg (if fid == "36" then scg else next) = elim (Bool-cases (fid == "36")) [
      | inl attacks ↦ rw (attacks) (Grows-refl scg)
      | inr other ↦ rw (other) (add_framework-Grows cnode fid fw scg h)
    ] in
    Grows-trans step (
      add_frameworks-Grows fws cnode mp (if fid == "36" then scg else next)
        (Grows-has_node step cnode h))

add_mitigated_by-Grows :
    (cnode : String) (tids : List String) (s : ScfLoop)
    → has_node s.scg cnode ≡ true
    → Grows s.scg (add_mitigated_by cnode tids s).scg
unfolding add_mitigated_by attack is_concept is_rated
add_mitigated_by-Grows cnode [] s h = Grows-refl s.scg
add_mitigated_by-Grows cnode (tid ∷ tids) s h =
    let scg' =
      edge (attack_id tid) cnode "mitigated_by" "A" "ctid_reroute" scf_file attack_note
        (attack tid "" s.scg) in
    let step : Grows s.scg scg' = search growing depth 12 in
    Grows-trans step (add_mitigated_by-Grows cnode tids _ (Grows-has_node step cnode h))

add_attack_leg-Grows :
    (c : ScfControl) (atks : List String) (s : ScfLoop)
    → has_node s.scg (scf_id c) ≡ true
    → Grows s.scg (add_attack_leg c atks s).scg
unfolding add_attack_leg
add_attack_leg-Grows c [] s h = Grows-refl s.scg
add_attack_leg-Grows c (tid ∷ tids) s h = add_mitigated_by-Grows (scf_id c) (tid ∷ tids) _ h

load_control-Grows :
    (domains : List String) (fws : Dict String Framework) (c : ScfControl) (s : ScfLoop)
    → Grows s.scg (load_control domains fws c s).scg
unfolding load_control add_scf_control is_concept
load_control-Grows domains fws c s =
    let scg' = add_scf_control domains c s.scg in
    let first : Grows s.scg scg' = search growing in
    let here : has_node scg' (scf_id c) ≡ true = search growing in
    let second = add_frameworks-Grows fws (scf_id c) c.mapping scg' here in
    Grows-trans first (
      Grows-trans second
        (add_attack_leg-Grows c (attack_leg c) _ (Grows-has_node second (scf_id c) here)))

load_controls-Grows :
    (domains : List String) (fws : Dict String Framework) (cs : List ScfControl) (s : ScfLoop)
    → Grows s.scg (load_controls domains fws cs s).scg
unfolding load_controls
load_controls-Grows domains fws [] s = Grows-refl s.scg
load_controls-Grows domains fws (c ∷ cs) s =
    Grows-trans (load_control-Grows domains fws c s)
      (load_controls-Grows domains fws cs (load_control domains fws c s))

pub hop5prime_scf-Grows :
    (file : Option ScfFile) (def2attacks : Attacks) (b : Build)
    → Grows b.scg (hop5prime_scf file def2attacks b).scg
unfolding hop5prime_scf scf_loop record_reach record_figure
hop5prime_scf-Grows none def2attacks b = Grows-refl b.scg
hop5prime_scf-Grows (some file) def2attacks b =
    load_controls-Grows file.domains (fw_by_fid file.frameworks []) file.controls
      (record { scg = b.scg; scf_attack_controls = 0; scf_attack_ids = []; ctl_to_attacks = [] })
