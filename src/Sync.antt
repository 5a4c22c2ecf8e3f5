-- ===== src/Sync.antt =====
-- src/orderbook/synchronizer.rs: the state machine that keeps the book in step with the stream. Its
-- definitions are in `State` and `Defs`, its proofs in the other children.
pub mod State
pub mod Defs
pub mod Buffer
pub mod Reconcile
pub mod Run
pub mod Live
pub mod Coherent
pub mod Counted
