-- ===== src/Report.antt =====
-- Bundles, their signatures and the verdict: crates/darcbench-report.
pub mod Signing
pub mod Bundle
pub mod Match
pub mod Verdict
pub mod Validate
