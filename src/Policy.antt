-- ===== src/Policy.antt =====
-- backend/src/replayforge/policy: deny-by-default policy over automation and human input.
pub mod Types
pub mod Layers
pub mod Routes
pub mod Decisions
pub mod Evaluator
pub mod LayerChecks
pub mod Samples
