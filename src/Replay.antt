-- ===== src/Replay.antt =====
-- The deterministic executor of capability artifacts.
pub mod Machine
pub mod Results
pub mod Detection
pub mod Steps
pub mod Attempts
pub mod Engine
pub mod Journal
pub mod Progress
pub mod Execution
pub mod Guarantees
mod Samples
