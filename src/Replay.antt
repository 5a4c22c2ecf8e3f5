-- ===== src/Replay.antt =====
-- src/replay: the recorded rows read back, and run through the components of the live engine.
pub mod Reader
pub mod Engine
pub mod Restored
pub mod Regrouped
pub mod Ranged
