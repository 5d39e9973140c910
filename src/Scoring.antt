-- ===== src/Scoring.antt =====
-- The scoring model: crates/darcbench-scoring.
pub mod Category
pub mod Reference
pub mod Sustained
pub mod Card
pub mod Buckets
pub mod Model
