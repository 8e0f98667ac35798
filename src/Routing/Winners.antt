-- ===== src/Routing/Winners.antt =====
-- The recorded winners of deterministic-routing-sim/route_sim.py (`WINNERS`, `TABLE_ROWS`, `VIEWS`,
-- `classify`).
use sdw_lab_benchmarks.Prelude.{
  ℕ, String, Bool, true, false, List, [], ◌∷◌, Dict, any_of, if◌then◌else◌,
}

pub data Engine : Type 0 where
  starrocks clickhouse_iceberg clickhouse_native : Engine

abbrev pub same_engine : Engine → Engine → Bool
same_engine starrocks starrocks = true
same_engine clickhouse_iceberg clickhouse_iceberg = true
same_engine clickhouse_native clickhouse_native = true
same_engine _ _ = false

pub data Shape : Type 0 where
  join_3table join_6table aggjoin correlated_exists dim_enrichment : Shape
  large_large two_stream_aggjoin ioc_semijoin scan_aggregation point_lookup : Shape

pub data Tier : Type 0 where
  hot cold : Tier

-- An entry of `WINNERS`.
pub record Cell : Type 0 where
  pub hot_winners : List Engine
  pub cold_winners : List Engine
  pub cliff : List Engine

-- `WINNERS`
unfoldable pub winners : Shape → Cell
winners join_3table = record {
  hot_winners = clickhouse_native ∷ [];
  cold_winners = starrocks ∷ [];
  cliff = [];
}
winners join_6table = record {
  hot_winners = starrocks ∷ [];
  cold_winners = starrocks ∷ [];
  cliff = clickhouse_native ∷ [];
}
winners aggjoin = record {
  hot_winners = clickhouse_native ∷ [];
  cold_winners = clickhouse_iceberg ∷ [];
  cliff = [];
}
winners correlated_exists = record {
  hot_winners = starrocks ∷ [];
  cold_winners = starrocks ∷ [];
  cliff = [];
}
winners dim_enrichment = record {
  hot_winners = clickhouse_native ∷ [];
  cold_winners = starrocks ∷ [];
  cliff = [];
}
winners large_large = record {
  hot_winners = starrocks ∷ clickhouse_iceberg ∷ clickhouse_native ∷ [];
  cold_winners = starrocks ∷ clickhouse_iceberg ∷ [];
  cliff = [];
}
winners two_stream_aggjoin = record {
  hot_winners = clickhouse_native ∷ clickhouse_iceberg ∷ [];
  cold_winners = clickhouse_iceberg ∷ [];
  cliff = [];
}
winners ioc_semijoin = record {
  hot_winners = clickhouse_native ∷ [];
  cold_winners = starrocks ∷ clickhouse_iceberg ∷ [];
  cliff = [];
}
winners scan_aggregation = record {
  hot_winners = clickhouse_native ∷ [];
  cold_winners = clickhouse_iceberg ∷ [];
  cliff = [];
}
winners point_lookup = record {
  hot_winners = clickhouse_native ∷ [];
  cold_winners = clickhouse_iceberg ∷ [];
  cliff = [];
}

-- `hot_w if tier == "hot" else cold_w`
unfoldable pub winners_at : Shape → Tier → List Engine
unfolding winners
winners_at shape hot = (winners shape).hot_winners
winners_at shape cold = (winners shape).cold_winners

-- `TABLE_ROWS`
abbrev pub table_rows : Dict String ℕ
table_rows =
    ("conn", 10000000)
    ∷ ("conn_10m", 10000000)
    ∷ ("iocs", 1000000)
    ∷ ("dim_host", 14800)
    ∷ ("lineitem", 60000000)
    ∷ ("orders", 15000000)
    ∷ ("customer", 1500000)
    ∷ []

-- `VIEWS`
abbrev pub views : Dict String (Shape × ℕ)
views = ("soc_summary_v", (join_6table, 60000000)) ∷ []

-- The texts of the outcomes; `parse_fail` is the one of `score` for a router that raises.
abbrev pub Outcome : Type 0
Outcome = String

abbrev pub correct : Outcome
correct = "correct"

abbrev pub minor_misroute : Outcome
minor_misroute = "minor_misroute"

abbrev pub catastrophic_misroute : Outcome
catastrophic_misroute = "catastrophic_misroute"

abbrev pub parse_fail : Outcome
parse_fail = "parse_fail"

-- `classify`, for the true tier and shape of the query
unfoldable pub classify : Engine → Tier → Shape → Outcome
unfolding winners_at
classify pick expected_tier shape =
    if any_of (same_engine pick) (winners shape).cliff
    then catastrophic_misroute
    else if any_of (same_engine pick) (winners_at shape expected_tier)
    then correct
    else minor_misroute
