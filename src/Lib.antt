-- ===== src/Lib.antt =====
-- Verification of the SDW Lab benchmarks: the pure Python cores that decide what a benchmark
-- reports.
--
-- The parts and how they interact
-- - Stream (stream-complexity): `gen_corpus.py` makes a corpus of login events and computes the
--   alerts to expect from it, `independent_ground_truth`; `batch/land_microbatches.py` replays the
--   corpus into one file per 60-second window; `batch/batch_job.py` polls the directory, runs a
--   grouping query over the new windows, and appends alerts to a file; `compare_answers.py` is the
--   gate that compares the file with the ground truth.
-- - MapFidelity (ocsf-mapping-fidelity): `map_fidelity.py` checks each source's mapping against a
--   subset of the OCSF schema, scores the source, and says which detections survive the mapping.
-- - ConceptGraph (security-context-graph): `scg.py` builds the graph of security concepts from the D3FEND
--   ontology, the wall's tables, a field bridge and an SCF file, one hop at a time, and reconciles
--   its figures with the published ones.
-- - ContextGraph (security-context-graph): `scg_mcp.py` loads a graph of security concepts and answers
--   queries on it; `paths` searches for chains between two nodes.
-- - PipelineFidelity (pipeline-normalization-fidelity): `score.py` scores the events that a pipeline
--   tool emits against a gold key; its self-check builds a reference event from the gold.
-- - Routing (deterministic-routing-sim): `route_sim.py` routes a query to an engine by its time window
--   and shape, and compares the pick with the recorded winners.
--
-- - SemanticQuery (ocsf-semantic-query): `scoring.py` scores an answer, a list of cells, against the
--   planted truth; the arms that it compares share it.
-- - Portability (sigma-portability): `fidelity.py` looks in a compiled query for the elements of the
--   correlation rule that it was compiled from.
--
-- Which file models which part
-- - Stream/Corpus.antt: `independent_ground_truth`; Stream/Truth.antt proves about it.
-- - Stream/Land.antt: `replay`, `_land`, `_write_window_file`. A file is a window number and rows.
--   Stream/Landed.antt proves about it.
-- - Stream/Batch.antt: `load_state`, `reload_seen_from_output`, `run_tick` and one round of `main`'s
--   loop. Stream/World.antt puts the collector, the job and crashes into one step relation: a crash
--   may come between rounds, or within a round after any number of its rows. An append of one alert
--   with its fsync is one step, and so is the rename that saves the state. The alerts file is `none`
--   until a round that scans a file opens it to append. Stream/Once, Windows, Candidates, Emission,
--   Prefix, Answers, Rounds, Opened and Arm prove about it.
-- - Stream/Compare.antt: `load_alert_keys`, `load_ground_truth_keys`, `compare_arm` and the exit
--   status of `main` with `--arm batch`; Stream/Gate.antt and Stream/Equal.antt prove about it.
-- - MapFidelity/Schema, Validate, Score and Detections: `resolve_ocsf_path`, `validate_mapping`,
--   `score_source`, `score_detections`; Walks, Valid, Totals, Accounting and Survival prove about
--   them.
-- - ConceptGraph/Ontology and Descendants: `Ontology`, with `subclass_descendants`; Scaffold: `SCG`
--   and the recorded figures; FieldHop, EventHop, WallHop, MitigationHop, SkosHop and ScfHop: the
--   functions `hop1_fields` to `hop5prime_scf`, over parsed files; Reconcile: `EXPECT` and
--   `reconcile`; Main: the order of the hops in `main` and its exit. A set is a list, and Python's
--   loop over a set follows the list's order. Kids and Reached prove about the walk, Grows, SpineGrows,
--   WallGrows, ControlGrows and Built about the graph, Figures, Ends, SkosCounts and Reach about the
--   figures.
-- - ContextGraph/Graph.antt: the edges of `Graph._load` and the table `TRUST`, in hundredths;
--   ContextGraph/Paths.antt: `paths` from the two resolved nodes on; Index: the nodes of `_load`,
--   `resolve`, `lbl`, `brief`; Tools and Coverage: the tools. Mirror, Counts, Routes, Found, Complete,
--   Sound, Ranked, Resolved and Answers prove about them.
-- - PipelineFidelity/Events.antt: `get_path`, `_set_path`, over events whose values other than dicts
--   are left abstract; PipelineFidelity/Reference.antt: `_is_catch_all` and the field loop of
--   `_build_reference_emitted`. Writes and Lands prove about them.
-- - PipelineFidelity/MergedSchema: `load_merged_schema`; Values: `_eq`; Score: `score_record` and
--   `_score_failure_classes`; Sources: `score_source`, `_top`, `load_emitted`. Bounds and
--   MergedSchema prove about them.
-- - Routing/Winners: `WINNERS`, `VIEWS`, `classify`; Dates: the dates in a predicate; Router: `Router`;
--   Score: the rows and counts of `run`. Safe and Totals prove about them.
-- - Portability/Fidelity: `fidelity.py`; Fractions proves about it.
-- - SemanticQuery/Numbers: `_numbers`; Scoring: `classify`, `_identity_strings`, `STAGE_KEYWORDS`.
--   Longer proves about them.
-- - Prelude: equality tests, sets and dicts as lists, counters, sorting, texts, and a result type for
--   raised exceptions.
-- - The modules called Tests hold the concrete runs.
--
-- What stands for code outside the repository
-- - DuckDB's run of the grouping query is a parameter. Stream/Answers.antt names what the job relies
--   on, that the keys of its rows are those with at least five failures in the files; Stream/Tests
--   gives an engine with that property. That no alert is written twice needs nothing of the query.
-- - The wall clock is a parameter.
-- - What sqlglot's parse tree shows of a query is a record, Routing/Router.antt.
-- - Python's tests and comparisons of JSON values are a record, PipelineFidelity/Values.antt.
--
-- Bounds: every loop is structural recursion on the list that it reads, but for the worklist of
-- `subclass_descendants`, whose fuel is one more than the number of subclass links: a class is pushed
-- once, and the root once more. The search
-- of `paths` recurs on the hops left, `max_hops - len(hops)`, and keeps the source's own budget of
-- 250000 expansions; where the source's counter goes below 0 the model's stays at 0, and both are read
-- only by `<= 0`. Times and counts are natural numbers, as Python's integers do not overflow.
-- Letters and digits are ASCII where the source's `lower` and patterns read Unicode.
--
-- Not modelled: reading and writing of files and JSON, the drawing of charts, the harnesses that time
-- external engines, the streaming arm of stream-complexity, and rounding of the scores in
-- map_fidelity.py, where a quotient is kept as its numerator and denominator; in scg.py
-- `graph_fingerprint`; in scg_mcp.py the fixed
-- texts of `legend` and `stats`; in score.py the texts of reasons, `self_check` and the
-- writing of results; in route_sim.py the texts of the corpus and the report on dialects.
pub mod ConceptGraph
pub mod ContextGraph
pub mod MapFidelity
pub mod PipelineFidelity
pub mod Portability
pub mod Prelude
pub mod Routing
pub mod SemanticQuery
pub mod Stream
