-- ===== src/Sync/State.antt =====
-- `enum SyncState` of src/orderbook/synchronizer.rs.
pub data SyncState : Type 0 where
  disconnected connecting buffering snapshot_loading synchronizing ready : SyncState
  resync_required reconnecting stopping : SyncState
