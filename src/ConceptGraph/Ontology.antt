-- ===== src/ConceptGraph/Ontology.antt =====
-- The parsed D3FEND ontology, security-context-graph/scg.py (`is_control`, `classify_d3f`, `_label`,
-- `_refs`, `Ontology.__init__`). The graph of the JSON-LD file is a list of dicts that have an `@id`;
-- a value of theirs is a literal, a dict, a list of these, or missing.
use sdw_lab_benchmarks.Prelude.{
  String, ◌||◌, Option, none, some, List, [], ◌∷◌, ◌++◌, Dict, keys, lookup, insert, contains, add,
  string_eq, if◌then◌else◌,
}
use sdw_lab_benchmarks.Prelude.Text.{is_in, starts_with}
use sdw_lab_benchmarks.Prelude.Edits.{is_blank, join_words, to_lower, strip}

-- A value that is no list; of a dict, its `@id` and its `@value`.
pub data Item : Type 0 where
  null : Item
  literal : String → Item
  dict : Option String → Option String → Item

pub data Value : Type 0 where
  single : Item → Value
  several : List Item → Value

-- The `@type` of a node.
pub data Types : Type 0 where
  one_type : String → Types
  type_list : List String → Types

pub record Thing : Type 0 where
  pub id : String
  pub types : Types
  pub props : Dict String Value

-- `{}`
abbrev pub empty_thing : Thing
empty_thing = record { id = ""; types = type_list []; props = [] }

-- `n.get(name)`
unfoldable pub prop_of : String → Thing → Value
prop_of name n = elim (lookup name n.props) [ none ↦ single null | some v ↦ v ]

abbrev pub text_of : Option String → String
text_of none = ""
text_of (some s) = s

-- `is_control`
unfoldable pub is_control : String → Option String
is_control s =
    if is_in "NIST_SP_800-53" s || is_in "800-53" s
    then some "800-53"
    else if is_in "CCI-" s || starts_with s "d3f:CCI"
    then some "CCI"
    else none

abbrev pub type_names : Types → List String
type_names (one_type t) = t ∷ []
type_names (type_list ts) = ts

-- `classify_d3f`
unfoldable pub classify_d3f : Thing → String
classify_d3f n =
    let ts = join_words (type_names n.types) in
    if is_in "ATTACKEnterpriseMitigation" ts
    then "attack_mitigation"
    else if is_in "ATTACKEnterpriseDataSource" ts
    then "attack_datasource"
    else if is_in "owl:Class" ts
    then "defensive_technique"
    else "other"

abbrev label_item : Item → String
label_item null = ""
label_item (literal s) = s
label_item (dict id value) = text_of value

abbrev label_value : Value → String
label_value (single v) = label_item v
label_value (several []) = ""
label_value (several (v ∷ vs)) = label_item v

-- `_label`
unfoldable pub label : Thing → String
unfolding prop_of
label n = label_value (prop_of "rdfs:label" n)

abbrev ref_item : Item → List String
ref_item null = []
ref_item (literal s) = s ∷ []
ref_item (dict none value) = []
ref_item (dict (some id) value) = id ∷ []

abbrev pub ref_items : List Item → List String
ref_items [] = []
ref_items (v ∷ vs) = ref_item v ++ ref_items vs

-- `_refs`
unfoldable pub refs : Value → List String
refs (single v) = ref_item v
refs (several vs) = ref_items vs

-- `_refs(n.get(name))`
abbrev pub refs_of : String → Thing → List String
refs_of name n = refs (prop_of name n)

pub record Ontology : Type 0 where
  pub graph : List Thing
  pub byid : Dict String Thing
  pub label2id : Dict String String
  pub d3fendid2id : Dict String String
  pub attackid2ids : Dict String (List String)

-- `label2id`: the first node of a label keeps it.
unfoldable pub index_label : Dict String String → Thing → Dict String String
unfolding contains insert lookup
index_label label2id n =
    let lab = to_lower (strip (label n)) in
    if is_blank lab || contains (keys label2id) lab then label2id else insert lab n.id label2id

-- `d3fendid2id[d] = nid`: the last node of an id has it.
unfoldable pub index_d3fend : List String → String → Dict String String → Dict String String
unfolding insert
index_d3fend [] nid d = d
index_d3fend (i ∷ is) nid d = index_d3fend is nid (insert i nid d)

-- `attackid2ids[a].add(nid)`
unfoldable pub index_attack :
    List String → String → Dict String (List String) → Dict String (List String)
unfolding insert lookup add
index_attack [] nid d = d
index_attack (i ∷ is) nid d =
    let ids : List String = elim (lookup i d) [ none ↦ [] | some known ↦ known ] in
    index_attack is nid (insert i (add nid ids) d)

unfoldable pub index_byid : List Thing → Dict String Thing → Dict String Thing
unfolding insert
index_byid [] byid = byid
index_byid (n ∷ ns) byid = index_byid ns (insert n.id n byid)

-- One pass of the loop over the graph.
unfoldable pub index_thing : Ontology → Thing → Ontology
unfolding index_label index_d3fend index_attack
index_thing ont n = record ont {
  label2id = index_label ont.label2id n;
  d3fendid2id = index_d3fend (refs_of "d3f:d3fend-id" n) n.id ont.d3fendid2id;
  attackid2ids = index_attack (refs_of "d3f:attack-id" n) n.id ont.attackid2ids;
}

unfoldable pub index_things : Ontology → List Thing → Ontology
unfolding index_thing
index_things ont [] = ont
index_things ont (n ∷ ns) = index_things (index_thing ont n) ns

-- `Ontology(path)`, of the graph that the file holds
unfoldable pub ontology : List Thing → Ontology
unfolding index_things index_byid
ontology graph =
    let start : Ontology = record {
      graph = graph;
      byid = index_byid graph [];
      label2id = [];
      d3fendid2id = [];
      attackid2ids = [];
    } in
    index_things start graph

-- `ont.byid.get(nid, {})`
unfoldable pub by_id : Ontology → String → Thing
unfolding lookup
by_id ont nid = elim (lookup nid ont.byid) [ none ↦ empty_thing | some n ↦ n ]
