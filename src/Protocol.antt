-- ===== src/Protocol.antt =====
-- The wire types: crates/darcbench-protocol.
pub mod Run
pub mod Metrics
pub mod Stats
pub mod Ids
pub mod External
