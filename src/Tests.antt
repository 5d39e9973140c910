-- ===== src/Tests.antt =====
-- Concrete runs of the model, at which the theorems are applied.
mod Data
mod Toy
mod Scores
mod Texts
mod Bundles
mod Agent
mod Session
mod Runs
mod Compare
mod Rebuilt
mod Storage
