-- ===== src/Replay/Progress.antt =====
-- The engine's computations, each within its grade: they end, keep the journal sound, and pay for
-- what they resume with a use of a recovery.
pub mod Reporting
pub mod Detecting
pub mod Stepping
pub mod Preparing
pub mod Attempting
pub mod Authorizing
pub mod Keys
pub mod Recovering
pub mod Looping
pub mod Executing
