-- ===== src/Agent.antt =====
-- The agent that runs the benchmark: crates/darcbench-agent.
pub mod Watchdog
pub mod Stream
pub mod Preflight
pub mod Runs
pub mod Index
pub mod Access
pub mod Server
pub mod Paths
