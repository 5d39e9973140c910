-- ===== src/Scoring/Reference.antt =====
-- crates/darcbench-scoring/src/reference.rs: the anchors of DARC-REF-1, and those of the superseded
-- model `dbs/0.1.0-dev`.
mod Defs
mod Machine
mod Services
mod Tables
pub mod Older
unfoldable pub use Defs.*
unfoldable pub use Tables.*
