-- ===== src/Runs.antt =====
-- backend/src/replayforge/runs: the bounded, ephemeral view of running executions.
pub mod Execution
pub mod Viewer
pub mod Polling
pub mod Samples
