-- ===== src/Shared.antt =====
-- backend/src/replayforge/shared: the clock's instants and the typed identifiers.
pub mod Clock
pub mod Ids
