-- ===== src/ConceptGraph/SkosHop.antt =====
-- Hop 5, security-context-graph/scg.py (`hop5_skos`): the SKOS relations of a defensive technique to
-- a control. The set of triples is looped over in the order of its list.
use sdw_lab_benchmarks.Prelude.{
  String, ◌||◌, Option, none, some, List, [], ◌∷◌, ◌==◌, length, add, string_eq, triple_eq,
  if◌then◌else◌,
}
use sdw_lab_benchmarks.Prelude.Edits.{is_blank, or_else, replace}
use sdw_lab_benchmarks.ConceptGraph.Ontology.{
  Ontology, Thing, label, refs_of, prop_of, refs, by_id, is_control, classify_d3f,
}
use sdw_lab_benchmarks.ConceptGraph.Scaffold.{Scg, node, edge, number, Build, record_figure}
use sdw_lab_benchmarks.ConceptGraph.MitigationHop.{skos_preds}

abbrev pub skos_file : String
skos_file = "d3fend-wall/cache/d3fend_ontology.json (SKOS, exactly-one-control-endpoint)"

-- (sid, pred, oid), also (ctl, d3f, pred)
abbrev pub Triple : Type 0
Triple = String × String × String

unfoldable pub add_triples : String → String → List String → List Triple → List Triple
unfolding add
add_triples sid pred [] triples = triples
add_triples sid pred (oid ∷ oids) triples =
    add_triples sid pred oids
      (if is_blank sid || is_blank oid then triples else add (sid, pred, oid) triples)

unfoldable pub pred_triples : Thing → List String → List Triple → List Triple
unfolding add_triples prop_of refs
pred_triples n [] triples = triples
pred_triples n (pred ∷ preds) triples =
    pred_triples n preds (add_triples n.id pred (refs_of pred n) triples)

-- The loop over the graph.
unfoldable pub skos_triples : List Thing → List Triple → List Triple
unfolding pred_triples
skos_triples [] triples = triples
skos_triples (n ∷ ns) triples = skos_triples ns (pred_triples n skos_preds triples)

-- The control of a triple, its kind, and the other end, where exactly one end is a control.
pub record ControlEnd : Type 0 where
  pub ctl : String
  pub kind : String
  pub d3f : String

unfoldable pub one_control : String → Option String → Option String → String → Option ControlEnd
one_control sid none none oid = none
one_control sid (some cs) (some co) oid = none
one_control sid (some cs) none oid = some (record { ctl = sid; kind = cs; d3f = oid })
one_control sid none (some co) oid = some (record { ctl = oid; kind = co; d3f = sid })

unfoldable pub control_end : Triple → Option ControlEnd
unfolding one_control is_control
control_end (sid, pred, oid) = one_control sid (is_control sid) (is_control oid) oid

pub record SkosLoop : Type 0 where
  pub scg : Scg
  pub dt_edges : List Triple
  pub controls : List String
  pub c8053 : List String
  pub ccci : List String
  pub techs : List String

abbrev pub control_kind : String → String
control_kind kind = if kind == "800-53" then "nist_800-53" else "cci"

unfoldable pub control_label : Ontology → String → String
unfolding label by_id
control_label ont ctl = or_else (label (by_id ont ctl)) ctl

-- The nodes and the edge of a relation.
unfoldable pub add_relation : Ontology → String → ControlEnd → Scg → Scg
unfolding node edge label by_id control_label replace
add_relation ont pred c scg =
    edge c.d3f c.ctl (replace "d3f:" "skos_" pred) "A" "skos_typed" skos_file "" (
      node c.ctl "control" (control_label ont c.ctl)
        (("control_kind", some (control_kind c.kind)) ∷ [])
        (node c.d3f "defense" (label (by_id ont c.d3f)) [] scg))

-- The rest of the body of the loop, for a triple of a technique and a control.
unfoldable pub count_relation : Ontology → String → ControlEnd → SkosLoop → SkosLoop
unfolding add_relation add
count_relation ont pred c s = record {
  scg = add_relation ont pred c s.scg;
  dt_edges = add (c.ctl, c.d3f, pred) s.dt_edges;
  controls = add c.ctl s.controls;
  c8053 = if c.kind == "800-53" then add c.ctl s.c8053 else s.c8053;
  ccci = if c.kind == "800-53" then s.ccci else add c.ctl s.ccci;
  techs = add c.d3f s.techs;
}

unfoldable pub add_control_end : Ontology → String → Option ControlEnd → SkosLoop → SkosLoop
unfolding count_relation classify_d3f by_id
add_control_end ont pred none s = s
add_control_end ont pred (some c) s =
    if classify_d3f (by_id ont c.d3f) == "defensive_technique"
    then count_relation ont pred c s
    else s

-- The loop over the triples.
unfoldable pub relate : Ontology → List Triple → SkosLoop → SkosLoop
unfolding add_control_end control_end
relate ont [] s = s
relate ont (t ∷ ts) s = relate ont ts (add_control_end ont t.1 (control_end t) s)

-- Both loops, from the start.
unfoldable pub skos_loop : Ontology → Scg → SkosLoop
unfolding relate skos_triples
skos_loop ont scg =
    relate ont (skos_triples ont.graph [])
      (record { scg = scg; dt_edges = []; controls = []; c8053 = []; ccci = []; techs = [] })

unfoldable pub hop5_skos : Ontology → Build → Build
unfolding skos_loop record_figure
hop5_skos ont b =
    let s = skos_loop ont b.scg in
    record_figure "skos_def_techniques" (number (length s.techs)) (
      record_figure "skos_controls_cci" (number (length s.ccci)) (
        record_figure "skos_controls_800-53" (number (length s.c8053)) (
          record_figure "skos_controls" (number (length s.controls))
            (record_figure "skos_edges" (number (length s.dt_edges)) (record b { scg = s.scg })))))
