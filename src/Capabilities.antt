-- ===== src/Capabilities.antt =====
-- backend/src/replayforge/capabilities: artifacts, their contracts and the functions over them.
pub mod Json
pub mod Values
pub mod Targets
pub mod Conditions
pub mod Transforms
pub mod Artifact
pub mod Binding
mod Samples
