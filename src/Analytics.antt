-- ===== src/Analytics.antt =====
-- src/analytics: the shadow book, the trade clusters and the trade flow of the analytics engine.
pub mod Shadow
pub mod Follow
pub mod Deltas
pub mod Micro
pub mod Clusters
pub mod Flow
pub mod Buckets
pub mod Heatmap
pub mod Config
pub mod Derived
pub mod LargeTrades
pub mod Liquidity
pub mod Sweeps
pub mod Absorption
pub mod Snapshot
pub mod Engine
