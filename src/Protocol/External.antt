-- ===== src/Protocol/External.antt =====
-- crates/darcbench-protocol/src/external.rs: the contract between the machine that is measured and the
-- machine that loads it.
use darcbench.Base.{ℕ, String}
pub mod Token
pub mod Offer
pub mod Report

abbrev pub external_protocol_version : String
external_protocol_version = "darcbench.external/1"

abbrev pub max_session_secs : ℕ
max_session_secs = 14_400

abbrev pub min_session_secs : ℕ
min_session_secs = 30

abbrev pub reconcile_slack_requests : ℕ
reconcile_slack_requests = 1024

abbrev pub session_overhead_ms : ℕ
session_overhead_ms = 10_000

abbrev pub min_phase_ms : ℕ
min_phase_ms = 1_000
