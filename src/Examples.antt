-- ===== src/Examples.antt =====
-- The theorems at concrete inputs.
mod Data
mod Books
mod Syncs
mod Engines
mod Trading
mod Shadows
mod Analysed
mod Heatmaps
mod Recorders
mod Replays
mod Stored
mod Audited
mod Ranged
