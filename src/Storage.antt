-- ===== src/Storage.antt =====
-- src/storage: the rows of the analytics and their sink, and the storage in memory.
pub mod Sorts
pub mod Analytics
pub mod Sink
pub mod Lane
pub mod Joined
pub mod Within
pub mod Sent
pub mod Delivered
pub mod Memory
