-- ===== src/Engine/Sound.antt =====
-- In every interleaving of the loop and the tasks the book stays valid and the synchronizer coherent.
use futures_orderbook.Prelude.{
  ℕ, String, List, [], ◌∷◌, false, Option, none, some, Result, Result-cases, inl, inr, ok, err,
  if-elim, if◌then◌else◌, ◌&&◌,
}
use futures_orderbook.Binance.{DepthUpdate}
use futures_orderbook.Level.Floats.{F64}
use futures_orderbook.Error.{AnyError}
use futures_orderbook.Book.Defs.{OrderBook}
use futures_orderbook.Book.Apply.{apply_depth_update}
use futures_orderbook.Book.Valid.{
  IsValid, apply_snapshot-IsValid, apply_depth_update-IsValid, set_initialized-IsValid,
}
use futures_orderbook.Sync.State.{
  SyncState, buffering, snapshot_loading, synchronizing, ready, reconnecting,
}
use futures_orderbook.Sync.Defs.{
  Synchronizer, ProcessResult, apply, process_live_event, reconcile, trigger_resync,
}
use futures_orderbook.Sync.Run.{Call, step}
use futures_orderbook.Sync.Coherent.{IsCoherent, step-IsCoherent}
use futures_orderbook.Engine.Defs.{
  System, Kind, initial, resync, Task, Fetch, received, Input, on_ws_connected, on_ws_disconnected,
  on_depth, on_depth_in, on_live_result, on_pending, apply_events, run_task, sync_locked, get_task,
  wants_sync, advance, run,
}

pub record IsSound {Float : Type 0} (sys : System Float) : Type 0 where
  pub book : IsValid sys.book
  pub sync : IsCoherent sys.sync

apply_events-IsValid :
    (fl : F64) (kind : Kind) (events : List DepthUpdate) (b : OrderBook)
    → IsValid b
    → IsValid (apply_events fl kind events b)
unfolding apply_events
apply_events-IsValid fl kind [] b v = v
apply_events-IsValid fl kind (event ∷ events) b v =
    let result = apply_depth_update fl event.bids event.asks event.final_update_id b in
    let keep = apply_depth_update-IsValid fl event.bids event.asks event.final_update_id b v in
    let rest = apply_events-IsValid fl kind events result.0 keep in after result.1 kind keep rest
  where
    after :
        (r : Result (Unit {0}) AnyError) (k : Kind) {c d : OrderBook}
        → IsValid c
        → IsValid d
        → IsValid (elim r [ ok u ↦ d | err e ↦ elim k [ initial ↦ c | resync ↦ d ] ])
    after (ok u) k keep rest = rest
    after (err e) initial keep rest = keep
    after (err e) resync keep rest = rest

resync-IsCoherent : (s : Synchronizer) → IsCoherent s → IsCoherent (trigger_resync s)
unfolding step
resync-IsCoherent s c = step-IsCoherent Call.resync s c

module _ (fl : F64) (symbol : String) where
  on_live_result-IsSound :
      (update : DepthUpdate) (s : Synchronizer) (result : ProcessResult) (sys : System fl.Float)
      → IsCoherent s
      → IsSound sys
      → IsSound (on_live_result fl symbol update s result sys)
  on_live_result-IsSound update s apply sys c v = record { book = v.book; sync = c }
  on_live_result-IsSound update s ProcessResult.pu_mismatch sys c v = record {
    book = v.book;
    sync = resync-IsCoherent s c;
  }
  on_live_result-IsSound update s _ sys c v = record { book = v.book; sync = c }

  on_depth_in-IsSound :
      (st : SyncState) (update : DepthUpdate) (sys : System fl.Float)
      → IsSound sys
      → IsSound (on_depth_in fl symbol st update sys)
  unfolding step
  on_depth_in-IsSound buffering update sys v = record {
    book = v.book;
    sync = step-IsCoherent (Call.buffer update) sys.sync v.sync;
  }
  on_depth_in-IsSound ready update sys v =
      let (s, result) = process_live_event update sys.sync in
      on_live_result-IsSound update s result sys
        (step-IsCoherent (Call.live update) sys.sync v.sync) v
  on_depth_in-IsSound reconnecting update sys v = record {
    book = v.book;
    sync = step-IsCoherent (Call.buffer update) sys.sync v.sync;
  }
  on_depth_in-IsSound snapshot_loading update sys v = record {
    book = v.book;
    sync = step-IsCoherent (Call.buffer update) sys.sync v.sync;
  }
  on_depth_in-IsSound synchronizing update sys v = record {
    book = v.book;
    sync = step-IsCoherent (Call.buffer update) sys.sync v.sync;
  }
  on_depth_in-IsSound _ update sys v = v

  on_pending-IsSound :
      (update : DepthUpdate) (sys : System fl.Float)
      → IsSound sys
      → IsSound (on_pending fl symbol update sys)
  unfolding on_pending
  on_pending-IsSound update sys v =
      let keep =
        apply_depth_update-IsValid fl update.bids update.asks update.final_update_id sys.book
          v.book in
      elim (Result-cases
        (apply_depth_update fl update.bids update.asks update.final_update_id sys.book).1) [
          | inl (u, e) ↦ rw (e, on_pending) (record { book = keep; sync = v.sync })
          | inr (u, e) ↦ rw (e, on_pending) (record { book = keep; sync = v.sync })
        ]

  run_task-IsSound :
      (i : ℕ) (kind : Kind) (t : Task) (fetch : Fetch) (sys : System fl.Float)
      → IsSound sys
      → IsSound (run_task fl symbol i kind t fetch sys)
  unfolding run_task step
  run_task-IsSound i kind (Task.fetching attempt) (received snap) sys v = record {
    book = v.book;
    sync = step-IsCoherent Call.snapshot_loading sys.sync v.sync;
  }
  run_task-IsSound i kind (Task.fetching attempt) _ sys v = record {
    book = v.book;
    sync = step-IsCoherent Call.resync sys.sync v.sync;
  }
  run_task-IsSound i kind (Task.loading attempt snap) fetch sys v = record {
    book = apply_snapshot-IsValid fl snap.bids snap.asks snap.last_update_id sys.book;
    sync = v.sync;
  }
  run_task-IsSound i kind (Task.loaded attempt snap) fetch sys v =
      let keep = step-IsCoherent (Call.reconciles snap.last_update_id) sys.sync v.sync in
      elim (Result-cases (reconcile snap.last_update_id sys.sync).1) [
        | inl (events, e) ↦ rw (e, run_task) (record { book = v.book; sync = keep })
        | inr (bad, e) ↦
            rw (e, run_task) (record { book = v.book; sync = step-IsCoherent Call.resync _ keep })
      ]
  run_task-IsSound i kind (Task.reconciled snap events) fetch sys v = record {
    book = apply_events-IsValid fl kind events sys.book v.book;
    sync = v.sync;
  }
  run_task-IsSound i kind (Task.seeding snap) fetch sys v = record { book = v.book; sync = v.sync }
  run_task-IsSound i kind Task.over fetch sys v = v

  -- Every step, whether of the loop or of a task, keeps the book valid and the synchronizer coherent.
  pub advance-IsSound :
      (input : Input) (sys : System fl.Float) → IsSound sys → IsSound (advance fl symbol input sys)
  unfolding advance on_ws_connected on_ws_disconnected on_depth step
  advance-IsSound Input.connected sys v =
      if-elim IsSound _ _ sys
        (λ _. record { book = v.book; sync = step-IsCoherent Call.connected sys.sync v.sync })
        (λ _. v)
  advance-IsSound Input.disconnected sys v =
      if-elim IsSound _ _ sys
        (λ _. record {
          book = set_initialized-IsValid sys.book false v.book;
          sync = step-IsCoherent Call.reconnecting sys.sync v.sync;
        })
        (λ _. v)
  advance-IsSound (Input.depth update) sys v =
      if-elim IsSound _ _ sys (λ _. on_depth_in-IsSound sys.sync.state update sys v) (λ _. v)
  advance-IsSound Input.apply_pending sys v = pending-IsSound sys.pending
    where
      pending-IsSound :
          (p : Option DepthUpdate)
          → IsSound (elim p [ none ↦ sys | some update ↦ on_pending fl symbol update sys ])
      pending-IsSound none = v
      pending-IsSound (some update) = on_pending-IsSound update sys v
  advance-IsSound (Input.task i fetch) sys v = task-IsSound (get_task i sys.tasks)
    where
      task-IsSound :
          (found : Option (Kind × Task))
          → IsSound (elim found [
            | none ↦ sys
            | some (kind, t) ↦
                if wants_sync fl symbol t && sync_locked sys.tasks
                then sys
                else run_task fl symbol i kind t fetch sys
          ])
      task-IsSound none = v
      task-IsSound (some (kind, t)) =
          if-elim IsSound _ sys _ (λ _. v) (λ _. run_task-IsSound i kind t fetch sys v)

  -- From any sound system, every interleaving of messages, fetches and task steps leads to a sound
  -- system: the sides of the book are ordered maps of 64-bit prices and quantities without zero
  -- quantities, and in `Ready` there is a last applied event and no buffered one.
  pub run-IsSound :
      (inputs : List Input) (sys : System fl.Float)
      → IsSound sys
      → IsSound (run fl symbol inputs sys)
  unfolding run
  run-IsSound [] sys v = v
  run-IsSound (i ∷ is) sys v = run-IsSound is (advance fl symbol i sys) (advance-IsSound i sys v)
