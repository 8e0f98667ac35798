-- ===== src/PipelineFidelity/Tests.antt =====
-- A gold record of two fields in one object of the event.
use mathlib.Core.List.Memᴰ.{head, tail}
use sdw_lab_benchmarks.Prelude.{
  String, false, ◌≡◌, refl, none, some, [], ◌∷◌, contains, All, string_eq, if◌then◌else◌,
}
use sdw_lab_benchmarks.Prelude.Text.{split}
use sdw_lab_benchmarks.PipelineFidelity.Events.{
  leaf, object, Members, empty, member, find, enter, get_segments, set_segments, get_path,
}
use sdw_lab_benchmarks.PipelineFidelity.Writes.{
  is_blocked, get_segments-set_segments, get_segments-set_segments_other,
}
use sdw_lab_benchmarks.PipelineFidelity.Reference.{
  GoldField, is_catch_all, heads_catch_all, write_fields,
}
use sdw_lab_benchmarks.PipelineFidelity.Lands.{AllDiverge, IsFree, reference_carries}

abbrev event : Members String
event = member "class_uid" (leaf "4001") empty

abbrev address : GoldField String
address = record {
  field = "id.orig_h";
  ocsf = "src_endpoint.ip";
  status = "typed";
  value = some (leaf "10.0.0.1");
}

abbrev port : GoldField String
port = record {
  field = "id.orig_p";
  ocsf = "src_endpoint.port";
  status = "coerced";
  value = some (leaf "443");
}

get_segments-set_segments_example :
    get_segments
      (object (set_segments event ("src_endpoint" ∷ "ip" ∷ []) (leaf "10.0.0.1")))
      ("src_endpoint" ∷ "ip" ∷ [])
    ≡ (if is_blocked event ("src_endpoint" ∷ "ip" ∷ []) then none else some (leaf "10.0.0.1"))
get_segments-set_segments_example =
    get_segments-set_segments event "src_endpoint" ("ip" ∷ []) (leaf "10.0.0.1")

get_segments-set_segments_other_example :
    get_segments
      (object (set_segments event ("src_endpoint" ∷ "ip" ∷ []) (leaf "10.0.0.1")))
      ("class_uid" ∷ [])
    ≡ get_segments (object event) ("class_uid" ∷ [])
get_segments-set_segments_other_example =
    get_segments-set_segments_other event ("src_endpoint" ∷ "ip" ∷ []) ("class_uid" ∷ [])
      (leaf "10.0.0.1") refl

port_kept : is_catch_all ("unmapped" ∷ "raw_data" ∷ []) "src_endpoint.port" ≡ false
unfolding is_catch_all heads_catch_all split contains
port_kept = refl

targets_diverge : AllDiverge (address ∷ port ∷ [])
unfolding split
targets_diverge = ((refl, tt), (tt, tt))

targets-IsFree : All (λ (g : GoldField String). IsFree event g.ocsf) (address ∷ port ∷ [])
unfolding split is_blocked find enter
targets-IsFree = (refl, (refl, tt))

reference_carries_example :
    get_path
      (object (write_fields ("unmapped" ∷ "raw_data" ∷ []) event (address ∷ port ∷ [])))
      "src_endpoint.port"
    ≡ some (leaf "443")
reference_carries_example =
    reference_carries ("unmapped" ∷ "raw_data" ∷ []) event (address ∷ port ∷ []) port (leaf "443")
      targets_diverge targets-IsFree (tail (head refl)) refl port_kept refl
