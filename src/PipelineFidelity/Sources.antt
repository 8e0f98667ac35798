-- ===== src/PipelineFidelity/Sources.antt =====
-- The scores of a source, pipeline-normalization-fidelity/score.py (`validate_gold_targets`,
-- `load_emitted`, `score_source`, `_top`). A rounded quotient is kept as its numerator and
-- denominator.
use sdw_lab_benchmarks.Prelude.{
  ℕ, ◌+◌, String, Bool, true, false, Option, none, some, List, [], ◌∷◌, Dict, length, take, keys,
  lookup, insert, contains, bump, count_if, sort_by, ltb, get_count, string_eq, if◌then◌else◌,
}
use sdw_lab_benchmarks.Prelude.Results.{Result, ok, raise, ◌>>=◌}
use sdw_lab_benchmarks.Prelude.TextOrder.{text_le}
use sdw_lab_benchmarks.MapFidelity.Schema.{OcsfSchema, ScoreError, resolve_ocsf_path}
use sdw_lab_benchmarks.PipelineFidelity.Events.{Members}
use sdw_lab_benchmarks.PipelineFidelity.Reference.{GoldField, is_catch_all}
use sdw_lab_benchmarks.PipelineFidelity.Values.{Python}
use sdw_lab_benchmarks.PipelineFidelity.Score.{GoldRecord, Miss, Verdict, RecordScore, score_record}

-- (numerator, denominator); the code gives 0.0 where the denominator is 0.
abbrev pub Quotient : Type 0
Quotient = ℕ × ℕ

abbrev pub to_count : Bool → ℕ
to_count b = if b then 1 else 0

-- The counters of the loop over the gold.
pub record Tally : Type 0 where
  pub ft : ℕ
  pub fl : ℕ
  pub ve : ℕ
  pub vo : ℕ
  pub cls_ok : ℕ
  pub act_ok : ℕ
  pub tuid_ok : ℕ
  pub fc_repro : Dict String ℕ
  pub fc_total : Dict String ℕ
  pub field_miss_tally : Dict String ℕ
  pub value_miss_tally : Dict String ℕ

abbrev pub empty_tally : Tally
empty_tally = record {
  ft = 0;
  fl = 0;
  ve = 0;
  vo = 0;
  cls_ok = 0;
  act_ok = 0;
  tuid_ok = 0;
  fc_repro = [];
  fc_total = [];
  field_miss_tally = [];
  value_miss_tally = [];
}

unfoldable pub tally_misses : List Miss → Dict String ℕ → Dict String ℕ
unfolding bump
tally_misses [] d = d
tally_misses (m ∷ misses) d = tally_misses misses (bump m.field d)

unfoldable pub total_verdicts : Dict String Verdict → Dict String ℕ → Dict String ℕ
unfolding bump
total_verdicts [] d = d
total_verdicts ((name, fc) ∷ verdicts) d = total_verdicts verdicts (bump name d)

unfoldable pub repro_verdicts : Dict String Verdict → Dict String ℕ → Dict String ℕ
unfolding bump
repro_verdicts [] d = d
repro_verdicts ((name, fc) ∷ verdicts) d =
    repro_verdicts verdicts (if fc.reproduced then bump name d else d)

-- The body of the loop over the gold, for the score of a record.
unfoldable pub add_score : RecordScore → Tally → Tally
unfolding tally_misses total_verdicts repro_verdicts
add_score r t = record {
  ft = t.ft + r.total;
  fl = t.fl + r.landed;
  ve = t.ve + r.eligible;
  vo = t.vo + r.preserved;
  cls_ok = t.cls_ok + to_count r.class_uid_ok;
  act_ok = t.act_ok + to_count r.activity_id_ok;
  tuid_ok = t.tuid_ok + to_count r.type_uid_ok;
  fc_repro = repro_verdicts r.failure_classes t.fc_repro;
  fc_total = total_verdicts r.failure_classes t.fc_total;
  field_miss_tally = tally_misses r.field_misses t.field_miss_tally;
  value_miss_tally = tally_misses r.value_misses t.value_miss_tally;
}

-- the order of `(-count, field)`
unfoldable pub count_le : String × ℕ → String × ℕ → Bool
unfolding text_le
count_le p q = if ltb q.1 p.1 then true else if ltb p.1 q.1 then false else text_le p.0 q.0

-- `_top`
unfoldable pub top : Dict String ℕ → List (String × ℕ)
unfolding sort_by count_le
top tally = take 8 (sort_by count_le tally)

pub record FailureClass : Type 0 where
  pub name : String
  pub reproduced_records : ℕ
  pub total_records : ℕ

-- The comprehension over `fc_total`.
unfoldable pub failure_rows : Dict String ℕ → Dict String ℕ → List FailureClass
unfolding lookup
failure_rows repro [] = []
failure_rows repro ((name, n) ∷ totals) =
    record { name = name; reproduced_records = get_count name repro; total_records = n }
    ∷ failure_rows repro totals

pub record SourceScore : Type 0 where
  pub source : String
  pub ocsf_class : Option String
  pub records : ℕ
  pub coverage : Quotient
  pub field_fidelity : Quotient
  pub top_dropped : List (String × ℕ)
  pub value_fidelity : Quotient
  pub top_mangled : List (String × ℕ)
  pub class_assignment : Quotient
  pub activity_id : Quotient
  pub type_uid : Quotient
  pub failure_classes : List FailureClass

module _ {L : Type 0} where
  -- The loop of `validate_gold_targets`.
  unfoldable pub validate_fields :
      OcsfSchema → String → List (GoldField L) → Result ScoreError (Unit {0})
  unfolding is_catch_all resolve_ocsf_path
  validate_fields schema cls [] = ok tt
  validate_fields schema cls (f ∷ fields) =
      let rest = validate_fields schema cls fields in
      if is_catch_all schema.catch_alls f.ocsf
      then rest
      else do kind ← resolve_ocsf_path schema cls f.ocsf; rest

  -- `if gold: validate_gold_targets(schema, gold[0])`
  unfoldable pub validate_first : OcsfSchema → List (GoldRecord L) → Result ScoreError (Unit {0})
  unfolding validate_fields
  validate_first schema [] = ok tt
  validate_first schema (g ∷ gold) = validate_fields schema g.cls g.fields

  -- `emitted_map.get(g["_id"], {})`, where an empty event is as none
  unfoldable pub event_of : Dict String (Members L) → GoldRecord L → Option (Members L)
  unfolding lookup
  event_of emitted_map g = lookup g.id emitted_map

  module _ (py : Python L) (catch_alls : List String) (emitted_map : Dict String (Members L)) where
    unfoldable pub tally_gold : List (GoldRecord L) → Tally → Tally
    unfolding add_score score_record event_of
    tally_gold [] t = t
    tally_gold (g ∷ gold) t =
        tally_gold gold (add_score (score_record py catch_alls g (event_of emitted_map g)) t)

    -- `gold[0]["class"] if gold else None`
    abbrev pub first_class : List (GoldRecord L) → Option String
    first_class [] = none
    first_class (g ∷ gold) = some g.cls

    -- What `score_source` gives back.
    unfoldable pub source_score : String → List (GoldRecord L) → SourceScore
    unfolding tally_gold top failure_rows contains
    source_score source gold =
        let t = tally_gold gold empty_tally in
        let n = length gold in
        record {
          source = source;
          ocsf_class = first_class gold;
          records = n;
          coverage = (count_if (λ (g : GoldRecord L). contains (keys emitted_map) g.id) gold, n);
          field_fidelity = (t.fl, t.ft);
          top_dropped = top t.field_miss_tally;
          value_fidelity = (t.vo, t.ve);
          top_mangled = top t.value_miss_tally;
          class_assignment = (t.cls_ok, n);
          activity_id = (t.act_ok, n);
          type_uid = (t.tuid_ok, n);
          failure_classes = failure_rows t.fc_repro t.fc_total;
        }

  unfoldable pub score_source :
      Python L
      → OcsfSchema
      → Dict String (Members L)
      → String
      → List (GoldRecord L)
      → Result ScoreError SourceScore
  unfolding validate_first source_score
  score_source py schema emitted_map source gold = do
    valid ← validate_first schema gold
    ok (source_score py schema.catch_alls emitted_map source gold)

-- What `load_emitted` raises.
pub data LoadError : Type 0 where
  missing_id : LoadError

-- The loop of `load_emitted` over the events of a file, each with its `_id`.
unfoldable pub load_emitted :
    {L : Type 0}
    → List (Option String × Members L)
    → Dict String (Members L)
    → Result LoadError (Dict String (Members L))
unfolding insert
load_emitted [] out = ok out
load_emitted ((none, ev) ∷ events) out = raise missing_id
load_emitted ((some key, ev) ∷ events) out = load_emitted events (insert key ev out)
