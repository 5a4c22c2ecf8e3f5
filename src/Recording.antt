-- ===== src/Recording.antt =====
-- src/recording: the recorder, its bounded queue, and the worker that writes batches to the storage.
pub mod Host
pub mod Rows
pub mod Metrics
pub mod Recorder
pub mod Worker
pub mod Run
pub mod Kept
pub mod Lanes
pub mod Delivered
pub mod Emptied
pub mod Drained
