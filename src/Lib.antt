-- ===== src/Lib.antt =====
-- DARCBench: a verification library for the benchmark of servers in crates/.
--
-- The agent (crates/darcbench-agent) decides in a preflight whether a run may start, runs the modules
-- of a profile (crates/darcbench-core, crates/darcbench-modules) while a watchdog looks on, publishes
-- every event to a stream, scores the metrics (crates/darcbench-scoring) and writes a signed bundle
-- (crates/darcbench-report), which a server validates by scoring it anew. The types that travel are in
-- crates/darcbench-protocol. The files follow these parts:
--
--   Base        lists, maps (`BTreeMap` as an ascending list of entries), `Result`, texts as bytes,
--               tests on numbers. Base/Num has `f64` as an interface, with the laws that a theorem
--               uses as hypotheses, and an instance in millionths for tests.
--   Protocol    Run: run states, profiles, verdicts. Stats: stats.rs. Metrics: metrics.rs. Ids: the
--               parsers of run and module ids; Ids/Grammar states their grammars apart from them.
--               External: external.rs, the token, the offer and the report of a session of two machines.
--   Scoring     Category, Reference, Sustained, Card, Buckets, Model: `ScoringModel::score_run` is a
--               loop that fills buckets (Buckets.bucket_all) and a tail that fills the card
--               (Model.card_of). Reference has every anchor of reference.rs; Sustained is
--               sustained.rs.
--   Report      Signing and Bundle: what a signature covers; Match: `scores_match`; Verdict and
--               Validate: `validate_bundle`, section by section, on the agent and on the server.
--   Agent       Watchdog: `Watchdog::check`, the state of the handle that it writes passed on; Stream:
--               `RunHandle::emit` and `events_since`; Preflight: preflight.rs.
--               Runs: the runs in memory, the slot of the one in flight, eviction, and the loop of
--               cycles; Index: the policy by which index.rs deletes runs; Index/Compare: its comparison
--               of two runs; Index/Reconcile: how its rows follow the directory; Access, Server and
--               Paths: credentials, the request that starts a run, paths, ports and URL prefixes.
--   Measure     Registry: the allow-list of registry.rs;
--               Budget: the transfer allowance of network_transfer.rs, with each atomic access a step
--               of an interleaving; Harness: `calibrate_with`;
--               Repeat: `time_reps`, without the progress it streams; the sum of its counts wraps at
--               2^32, as in a release build.
--               Session: the target of external_session.rs, whose control thread, origin, clock and
--               waiting thread act in any order, each step an event.
--               Fixture and Storage: storage_mixed.rs, the size of its file, and the accesses of a
--               repetition, each of which may fail; Random: `SplitMix64` of workloads.rs.
--   Tests       concrete runs at which the theorems are applied.
--
-- Numbers are natural; u64 arithmetic that may wrap is written out. The calibration loop has
-- fuel for its own cap of 2^24 iterations. Ed25519, base64, canonical JSON, the clock, the file system,
-- SQLite and the inventory are arguments. The loop of cycles
-- has fuel for two cycles more than its target has milliseconds, which its theorem shows to be enough.
--
-- Not modelled: workloads and their timing, sockets, processes and containers, the HTTP framework, the
-- terminal interfaces, HTML, and the inventory's reads of the system.
pub mod Base
pub mod Protocol
pub mod Scoring
pub mod Report
pub mod Agent
pub mod Measure
pub mod Tests
