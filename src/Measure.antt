-- ===== src/Measure.antt =====
-- How a module measures: crates/darcbench-core and crates/darcbench-modules.
pub mod Budget
pub mod Harness
pub mod Repeat
pub mod Session
pub mod Registry
pub mod Random
pub mod Fixture
pub mod Storage
