-- ===== src/Lib.antt =====
-- The AI cyber threat detector: what its stream side counts and reports, what its sink stores, what its API
-- serves, and how its models are deployed.
--
-- Zeek events pass the features and the six rules (inference/features.py, inference/rules.py). Alerts are
-- correlated per source address in Redis by two Lua scripts (inference/correlation.py) and sent to Kafka,
-- from which the sink stores them in the database (api/kafka_sink.py, api/schemas.py). The API (api/main.py,
-- api/routes/alerts.py) serves the table page by page; shared/data_access.py polls it for the dashboard and
-- the console. The scripts train the network that the stream side loads, and the simulator and the benchmark
-- make events for the same rules.
--
-- Common: lists, dictionaries in insertion order, integers, and ASCII texts, shared by all parts.
-- Redis: Redis as a parameter, an interface of commands with their documented effects on a `View`.
-- Redis.Memory is an implementation of it, which shows that the effects can be met.
-- Correlation: Correlation.Scripts is CORRELATE_LUA (`correlate`) and ROLLBACK_LUA (`rollback`), each block
-- of a script a function. Correlation.Keys says when the four keys of a window differ. Correlation.Alert is `add_alert` up to
-- the report, and `rollback_alert_seen`; Correlation.Request and Compensation prove of both. Correlation.Report is the
-- incident that `add_alert` builds of the snapshot, with its proofs in Covers. The proofs on the scripts are in
-- Effects and Window (what each block changes), Counting, Seen, Replay, Undo, Rollback and Expiry. Correlation.Master is
-- `check_redis_master` with its cache, Correlation.Handler all of `add_alert` in one (`handle_alert`), and Correlation.Connection the connection pool that `__init__` sets up.
-- Sink: Sink.Payload is AlertPayload, Sink.Offsets the offset maps, Sink.Batch `process_batch`, and
-- Sink.Loop one round of `run_sink` (`cycle`), its loop (`run`) and the shutdown. A round is given what the
-- database, the broker and the clock answer (`Tick`). Sink.Rotation is the rotation of the dead letter file. The other proofs are in Bounds, Intake,
-- Safety, Settled and Delivery (where an entry is left), and Rows.
-- Stream: the handler of inference/stream_processor_faust.py. Stream.Detect is the features, rules and network stages, Stream.Emit
-- what follows for one detection (`process_detection`: schema gate, publish, correlation, incident, rollbacks), Stream.Process
-- the loops over detections and events, Stream.Letters the dead letters and their local file, and Stream.Schema the gate of
-- inference/schemas.py. What each call meets is given (`Answers`): a send that timed out may have arrived, and a script whose
-- caller gave up may have run. Stream.Protocol is the two-phase protocol as a step relation; the proofs are in Steps, Refines, Settled,
-- TwoPhase and Gate.
-- Inference: what `DeepLearningEngine.predict` of inference/models.py shows the network. Inference.Encode is the
-- characters and the variants of a domain (`domains_to_check`), Inference.Slices the slices, Inference.Predict the guards and the verdict.
-- The proofs are in Windows, Coverage (one variant), Batch (all of them) and Variants. Inference.Orchestrator is
-- `ThreatModelOrchestrator.evaluate`.
-- Playbooks: inference/playbooks.py. Playbooks.Templates is the templates and the map of threat classes, Playbooks.Quote the
-- quoting and the replacement of placeholders, Playbooks.Generate `generate_playbook`. Playbooks.Shell has the shell's reading of a
-- word; the other proofs are in Choice, Marks (the placeholders), Render (one replacement) and Commands.
-- Detection: Detection.Event, Features and Rules are the values of an event, `extract_features` and
-- `evaluate_rules`; the proofs are in Reportable (each rule), Laws and Counts.
-- Access: Access.Address is `get_remote_address` and the trusted networks of api/deps.py over a parameter for
-- Python's ipaddress, Access.Auth the token, the principal and `require_scope`. The proofs are in Client,
-- Trust, Narrow, Entitled and Scopes. How the rate limiter uses the address is slowapi's.
-- Enrichment: Enrichment.Cache is `_get_cached` and `_set_cached` of inference/enrichment.py, Enrichment.Fetch is
-- `_fetch_intel` with the addresses it asks the network for, and Enrichment.Evidence is `enrich`. The
-- proofs on the lookup are in Bounds and Guard. Other tasks that run while the request is awaited are left out.
-- Risk: `calculate_risk_score` of inference/risk.py, over the severities of the alerts.
-- Ingest: Ingest.Tail is `process_log` of ingest/tail_to_redpanda.py; its proofs are in Counts and Marks. Ingest.Flows is
-- `ingest_pcap` of ingest/pcap_ingester.py; its proofs are in Table, Tally and Silent.
-- DataAccess: shared/data_access.py. DataAccess.Polling is the configuration and one poll, DataAccess.Incidents
-- `get_incidents`, with its proofs in Partition. DataAccess.Listeners is the single manager that all pages share.
-- Api: api/main.py, api/routes/alerts.py, api/auth.py and api/database.py. Api.Alerts is the routes of alerts over the
-- table, Api.Paging a client that follows the cursor, with lists in descending order in Listing. ORDER BY is a parameter,
-- and Sorting has an ordering that meets what is asked of it. Api.Stats is `get_stats`, Api.Tokens the minting and the
-- check of tokens, with PyJWT as a parameter, Api.Tracing the middleware and the handlers of exceptions. Api.Boot is what
-- must be configured before the API starts, with its proofs in Secure.
-- Training: Training.Sidecar is a model file with its digest beside it, as `save_traced_model` of inference/train_model.py
-- writes it and `_load_model_from_disk` of inference/models.py reads it; Digests has facts on digests, Reads
-- proves that it is read back. Training.Deploy is the
-- deployment of scripts/continuous_training.py with a load at any moment of it, Training.Loop the loops with early stopping,
-- with their proofs in Progress. Training.Domains and Dataset are the synthetic domains and the rows made of them,
-- Training.Signing the signed manifest of scripts/sign_manifest.py.
-- Simulator: ingest/simulator.py. Simulator.Traffic is its events, Drawn what the library's random draws promise. Simulator.Fires and
-- Verdicts say what the rules of inference/rules.py make of the events.
-- Formatters: shared/formatters.py. Formatters.Markdown is `escape_markdown`, Labels `format_timestamp` and
-- `format_mitre`, Evidence `categorize_evidence`.
-- Benchmark: scripts/benchmark_throughput.py. Benchmark.Records is its records, Evaluate `evaluate_record` and its relation to
-- the stages of the stream processor, Verdicts what the rules say of the records.
-- Terminal: terminal/tsoc_console.py. Terminal.Console is its state with a poll of the incidents and of the status and the
-- selection of a row, Terminal.Ranked and Queue the proofs on the queue it shows.
-- Examples: concrete runs.
--
-- Numbers: severities are whole, confidences in hundredths, entropies in thousandths rounded up. The offset
-- maps hold an offset plus one, so that 0 stands for the source's -1. Texts are ASCII. What `random`, `uuid` and the clock
-- give is drawn beforehand, a field for each draw.
--
-- Loops: most are over lists that are given (the members of a batch, the rounds of the sink). The two training loops
-- run on fuel, one round more than epochs (31 and 51), which is enough because they stop at 30 and 50 epochs; that
-- they reach their end is proved. A client that follows the cursor is given a number of requests; one more than there
-- are rows is proved to be enough.
--
-- Not modelled: the network and file calls themselves, logging, metrics and waiting; entropy, which is a
-- parameter as it is computed by floating-point logarithms; the networks themselves, and what torch makes of an epoch; the
-- thread pools of the stream processor, their semaphore and its shutdown; the wiring of CORS, Prometheus and the
-- probes; the pages of the dashboard, which only draw what the formatters and the manager give them.
pub mod Common
pub mod Redis
pub mod Correlation
pub mod Sink
pub mod Stream
pub mod Inference
pub mod Playbooks
pub mod DataAccess
pub mod Detection
pub mod Access
pub mod Enrichment
pub mod Risk
pub mod Ingest
pub mod Api
pub mod Training
pub mod Simulator
pub mod Formatters
pub mod Benchmark
pub mod Terminal
pub mod Examples
