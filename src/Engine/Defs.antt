-- ===== src/Engine/Defs.antt =====
-- The depth part of the main loop (`cmd_record` in src/main.rs) and its snapshot tasks, one step for
-- each stretch of code that runs under the same locks. A step that waits for a lock is refused.
use futures_orderbook.Prelude.{
  ℕ, zero, suc, ◌+◌, String, List, [], ◌∷◌, ◌++◌, map, Bool, true, false, not, ◌&&◌, ◌||◌, Option,
  none, some, ◌==◌, if◌then◌else◌, Result, ok, err,
}
use futures_orderbook.Binance.{DepthSnapshot, DepthUpdate}
use futures_orderbook.Level.{PriceLevel, price_str_to_ticks, quantity_str_to_ticks}
use futures_orderbook.Level.Floats.{F64}
use futures_orderbook.Events.{
  MarketEvent, Change, order_book_synchronized, order_book_snapshot, order_book_updated,
  order_book_resync_started, order_book_resync_completed, connection_status_changed,
}
use futures_orderbook.Error.{AnyError}
use futures_orderbook.Book.Defs.{OrderBook, Quote, best_bid, best_ask, set_initialized}
use futures_orderbook.Book.Apply.{apply_snapshot, apply_depth_update}
use futures_orderbook.Book.View.{mid_price, snapshot}
use futures_orderbook.Sync.State.{
  SyncState, buffering, snapshot_loading, synchronizing, ready, reconnecting,
}
use futures_orderbook.Sync.Defs.{
  Synchronizer, ProcessResult, apply, on_connected, on_reconnecting, on_snapshot_loading,
  buffer_event, process_live_event, reconcile, trigger_resync,
}

-- The task spawned on `Connected`, or on a mismatch.
pub data Kind : Type 0 where
  initial resync : Kind

-- What a task does next. In `reconciled` and `seeding` it holds the lock of the synchronizer.
pub data Task : Type 0 where
  fetching : ℕ → Task
  loading loaded : ℕ → DepthSnapshot → Task
  reconciled : DepthSnapshot → List DepthUpdate → Task
  seeding : DepthSnapshot → Task
  over : Task

-- The answer of the REST endpoint.
pub data Fetch : Type 0 where
  timed_out failed : Fetch
  received : DepthSnapshot → Fetch

-- `pending` is the event that the loop will apply once it has the lock of the book; the loop reads
-- no other message before that.
pub record System (Float : Type 0) : Type 0 where
  pub sync : Synchronizer
  pub book : OrderBook
  pub awaiting_snapshot : Bool
  pub pending : Option DepthUpdate
  pub tasks : List (Kind × Task)
  pub sent : List (MarketEvent Float)

pub data Input : Type 0 where
  connected disconnected apply_pending : Input
  depth : DepthUpdate → Input
  task : ℕ → Fetch → Input

-- `MAX_SNAPSHOT_RETRIES` and `MAX_RESYNC_RETRIES`
abbrev pub max_retries : ℕ
max_retries = 5

-- `continue` in `for attempt in 1..=MAX`
unfoldable pub retry : ℕ → Task
retry attempt = if attempt == max_retries then over else fetching (attempt + 1)

abbrev pub holds_sync : Kind × Task → Bool
holds_sync (kind, reconciled snap events) = true
holds_sync (kind, seeding snap) = true
holds_sync (kind, _) = false

unfoldable pub sync_locked : List (Kind × Task) → Bool
sync_locked [] = false
sync_locked (t ∷ ts) = holds_sync t || sync_locked ts

abbrev pub get_task : ℕ → List (Kind × Task) → Option (Kind × Task)
get_task i [] = none
get_task zero (t ∷ ts) = some t
get_task (suc i) (t ∷ ts) = get_task i ts

abbrev pub set_task : ℕ → Task → List (Kind × Task) → List (Kind × Task)
set_task i t [] = []
set_task zero t ((kind, old) ∷ ts) = (kind, t) ∷ ts
set_task (suc i) t (old ∷ ts) = old ∷ set_task i t ts

module _ (fl : F64) where
  -- `unwrap_or(0)` on both texts; no old quantity
  abbrev pub ticks_or_zero : Result ℕ AnyError → ℕ
  ticks_or_zero (ok n) = n
  ticks_or_zero (err e) = 0

  abbrev pub change_of : Quote → Change
  change_of (p, q) = record {
    price = ticks_or_zero (price_str_to_ticks fl p);
    new_qty = ticks_or_zero (quantity_str_to_ticks fl q);
    old_qty = none;
  }

  -- `break` at the first failure in the initial task, `let _ =` in the resync task.
  unfoldable pub apply_events : Kind → List DepthUpdate → OrderBook → OrderBook
  apply_events kind [] b = b
  apply_events kind (event ∷ events) b =
      let (c, result) = apply_depth_update fl event.bids event.asks event.final_update_id b in
      let rest = apply_events kind events c in
      elim result [ ok u ↦ rest | err e ↦ elim kind [ initial ↦ c | resync ↦ rest ] ]

module _ (fl : F64) (symbol : String) where
  open fl use {Float}

  abbrev pub send : MarketEvent Float → System Float → System Float
  send e sys = record sys { sent = sys.sent ++ e ∷ [] }

  abbrev pub spawn : Kind → System Float → System Float
  spawn kind sys = record sys { tasks = sys.tasks ++ (kind, fetching 1) ∷ [] }

  abbrev pub updated_event : DepthUpdate → OrderBook → MarketEvent Float
  updated_event update b =
      order_book_updated symbol update.final_update_id update.event_time
        (map (change_of fl) update.bids) (map (change_of fl) update.asks) (best_bid b) (best_ask b)
        (mid_price fl b)

  unfoldable pub on_ws_connected : System Float → System Float
  on_ws_connected sys =
      spawn initial (record sys { sync = on_connected sys.sync; awaiting_snapshot = true })

  unfoldable pub on_ws_disconnected : System Float → System Float
  on_ws_disconnected sys =
      let s = on_reconnecting sys.sync in
      send (connection_status_changed symbol false s.reconnect_count)
        (record sys { sync = s; awaiting_snapshot = false; book = set_initialized sys.book false })

  -- The match on the result of `process_live_event`.
  abbrev pub on_live_result :
      DepthUpdate → Synchronizer → ProcessResult → System Float → System Float
  on_live_result update s apply sys = record sys { sync = s; pending = some update }
  on_live_result update s ProcessResult.pu_mismatch sys =
      spawn resync (record (send (order_book_resync_started symbol "pu continuity failure") sys) {
        sync = trigger_resync s;
        awaiting_snapshot = true;
      })
  on_live_result update s _ sys = record sys { sync = s }

  abbrev pub on_depth_in : SyncState → DepthUpdate → System Float → System Float
  on_depth_in buffering update sys = record sys { sync = buffer_event update sys.sync }
  on_depth_in ready update sys =
      let (s, result) = process_live_event update sys.sync in on_live_result update s result sys
  on_depth_in reconnecting update sys = record sys { sync = buffer_event update sys.sync }
  on_depth_in snapshot_loading update sys = record sys { sync = buffer_event update sys.sync }
  on_depth_in synchronizing update sys = record sys { sync = buffer_event update sys.sync }
  on_depth_in _ update sys = sys

  unfoldable pub on_depth : DepthUpdate → System Float → System Float
  on_depth update sys = on_depth_in sys.sync.state update sys

  -- The loop has the lock of the book.
  unfoldable pub on_pending : DepthUpdate → System Float → System Float
  on_pending update sys =
      let (b, result) =
        apply_depth_update fl update.bids update.asks update.final_update_id sys.book in
      let freed = record sys { book = b; pending = none } in
      elim result [ err e ↦ freed | ok u ↦ send (updated_event update b) freed ]

  abbrev pub pairs : List PriceLevel → List (ℕ × ℕ)
  pairs = map (λ l. (l.price, l.quantity))

  abbrev pub done_event : Kind → DepthSnapshot → MarketEvent Float
  done_event initial snap = order_book_synchronized symbol snap.last_update_id 0 0
  done_event resync snap = order_book_resync_completed symbol snap.last_update_id

  abbrev pub after_fetch : ℕ → Fetch → Synchronizer → Synchronizer × Task
  after_fetch attempt (received snap) s = (on_snapshot_loading s, loading attempt snap)
  after_fetch attempt _ s = (trigger_resync s, retry attempt)

  -- One step of the `i`-th task.
  unfoldable pub run_task : ℕ → Kind → Task → Fetch → System Float → System Float
  run_task i kind (fetching attempt) fetch sys =
      let (s, next) = after_fetch attempt fetch sys.sync in
      record sys { sync = s; tasks = set_task i next sys.tasks }
  run_task i kind (loading attempt snap) fetch sys =
      let (b, result) = apply_snapshot fl snap.bids snap.asks snap.last_update_id sys.book in
      let next : Task = elim result [ err e ↦ over | ok u ↦ loaded attempt snap ] in
      record sys { book = b; tasks = set_task i next sys.tasks }
  run_task i kind (loaded attempt snap) fetch sys =
      let (s, result) = reconcile snap.last_update_id sys.sync in
      elim result [
        | ok events ↦ record sys { sync = s; tasks = set_task i (reconciled snap events) sys.tasks }
        | err e ↦ record sys {
          sync = trigger_resync s;
          tasks = set_task i (retry attempt) sys.tasks;
        }
      ]
  run_task i kind (reconciled snap events) fetch sys = record sys {
    book = apply_events fl kind events sys.book;
    tasks = set_task i (seeding snap) sys.tasks;
  }
  run_task i kind (seeding snap) fetch sys =
      let full = snapshot fl sys.book in
      send (done_event kind snap) (
        send (order_book_snapshot symbol full.last_update_id (pairs full.bids) (pairs full.asks))
          (record sys { tasks = set_task i over sys.tasks }))
  run_task i kind over fetch sys = sys

  -- The task's next step takes the lock of the synchronizer.
  abbrev pub wants_sync : Task → Bool
  wants_sync (fetching attempt) = true
  wants_sync (loaded attempt snap) = true
  wants_sync _ = false

  abbrev pub loop_free : System Float → Bool
  loop_free sys = elim sys.pending [ none ↦ not (sync_locked sys.tasks) | some update ↦ false ]

  -- A step that has to wait leaves the system as it is.
  unfoldable pub advance : Input → System Float → System Float
  advance connected sys = if loop_free sys then on_ws_connected sys else sys
  advance disconnected sys = if loop_free sys then on_ws_disconnected sys else sys
  advance (depth update) sys = if loop_free sys then on_depth update sys else sys
  advance apply_pending sys = elim sys.pending [ none ↦ sys | some update ↦ on_pending update sys ]
  advance (task i fetch) sys = elim (get_task i sys.tasks) [
    | none ↦ sys
    | some (kind, t) ↦
        if wants_sync t && sync_locked sys.tasks then sys else run_task i kind t fetch sys
  ]

  unfoldable pub run : List Input → System Float → System Float
  run [] sys = sys
  run (i ∷ is) sys = run is (advance i sys)
