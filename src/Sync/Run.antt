-- ===== src/Sync/Run.antt =====
-- The methods of the synchronizer as calls that its owner may make in any order.
use futures_orderbook.Prelude.{ℕ, List, [], ◌∷◌}
use futures_orderbook.Binance.{DepthUpdate}
use futures_orderbook.Sync.Defs.{
  Synchronizer, on_connecting, on_connected, on_reconnecting, on_snapshot_loading, buffer_event,
  process_live_event, reconcile, trigger_resync, shutdown,
}

pub data Call : Type 0 where
  connecting connected reconnecting snapshot_loading resync stop : Call
  buffer live : DepthUpdate → Call
  reconciles : ℕ → Call

unfoldable pub step : Call → Synchronizer → Synchronizer
step connecting s = on_connecting s
step connected s = on_connected s
step reconnecting s = on_reconnecting s
step snapshot_loading s = on_snapshot_loading s
step resync s = trigger_resync s
step stop s = shutdown s
step (buffer event) s = buffer_event event s
step (live event) s = (process_live_event event s).0
step (reconciles id) s = (reconcile id s).0

unfoldable pub run : List Call → Synchronizer → Synchronizer
run [] s = s
run (c ∷ cs) s = run cs (step c s)
