-- ===== src/Engine.antt =====
-- src/main.rs: the depth part of the main loop, with the snapshot tasks that run beside it.
pub mod Defs
pub mod Sound
pub mod Depth
pub mod Ends
pub mod Trades
