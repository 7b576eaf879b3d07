-- ===== src/Surfaces.antt =====
-- backend/src/replayforge/surfaces: what the other components read of a surface.
pub mod Observation
