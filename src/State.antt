-- ===== src/State.antt =====
-- The package state.
pub mod Config
