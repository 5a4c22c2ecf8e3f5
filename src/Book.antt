-- ===== src/Book.antt =====
-- src/orderbook/book.rs: the local order book, its definitions in `Defs`, `Apply` and `View`, the
-- terms of its specification in `Spec`, and the proofs in the other children.
pub mod Defs
pub mod Apply
pub mod Spec
pub mod View
pub mod Valid
pub mod Update
pub mod Snapshot
pub mod Best
