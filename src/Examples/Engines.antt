-- ===== src/Examples/Engines.antt =====
-- The loop and its tasks at concrete messages.
use futures_orderbook.Prelude.{
  ℕ, ◌≤◌, ◌⊎◌, true, All, ◌≡◌, refl, List, [], ◌∷◌, map, none, some, ok, err, false, arith,
}
use futures_orderbook.Binance.{DepthUpdate}
use futures_orderbook.Error.{parse_float}
use futures_orderbook.Level.{price_str_to_ticks, quantity_str_to_ticks}
use futures_orderbook.Level.Whole.{whole}
use futures_orderbook.Book.Spec.{decode}
use futures_orderbook.Book.Update.{IsWritten}
use futures_orderbook.Sync.State.{SyncState, ready, snapshot_loading}
use futures_orderbook.Engine.Defs.{
  System, Fetch, initial, resync, fetching, reconciled, connected, depth, apply_pending, task,
  timed_out, sync_locked, run,
}
use futures_orderbook.Engine.Ends.{IsOver, can_move, run_tasks, moved, tasks_end}
use futures_orderbook.Engine.Sound.{IsSound, run-IsSound}
use futures_orderbook.Engine.Depth.{
  IsIdle, live_update_applied, live_update_half_applied, depth_lost_while_loading,
}
use futures_orderbook.Examples.Data.{
  book, book-IsValid, quotes, ask_quotes, bad_quotes, event, sync_in,
}

abbrev system_in : SyncState → System ℕ
system_in state = record {
  sync = sync_in state [];
  book = book;
  awaiting_snapshot = false;
  pending = none;
  tasks = [];
  sent = [];
}

idle : IsIdle (system_in ready)
unfolding sync_locked
idle = (refl, refl)

abbrev update : DepthUpdate
update = event 11 20 10 quotes ask_quotes

abbrev bad_update : DepthUpdate
bad_update = event 11 20 10 quotes bad_quotes

abbrev bids_read : List (ℕ × ℕ)
bids_read = (500_000_000, 0) ∷ (600_000_000, 100_000_000) ∷ []

abbrev asks_read : List (ℕ × ℕ)
asks_read = (700_000_000, 400_000_000) ∷ []

abbrev before_bad : List (ℕ × ℕ)
before_bad = (800_000_000, 100_000_000) ∷ []

update_bids : decode whole quotes ≡ (bids_read, ok tt)
unfolding decode price_str_to_ticks quantity_str_to_ticks
update_bids = refl

update_asks : decode whole ask_quotes ≡ (asks_read, ok tt)
unfolding decode price_str_to_ticks quantity_str_to_ticks
update_asks = refl

bad_asks : decode whole bad_quotes ≡ (before_bad, err parse_float)
unfolding decode price_str_to_ticks quantity_str_to_ticks
bad_asks = refl

live_update_applied_example :
    let t = run whole "BTCUSDT" (depth update ∷ apply_pending ∷ []) (system_in ready) in
    IsWritten bids_read asks_read book t.book
    × (t.book.last_update_id ≡ 20)
    × (t.sync.last_applied_u ≡ some 20)
    × (t.sync.state ≡ ready)
    × (t.pending ≡ none)
live_update_applied_example =
    live_update_applied whole "BTCUSDT" update (system_in ready) 10 bids_read asks_read idle refl
      refl refl (omega arith) book-IsValid refl update_bids update_asks

live_update_half_applied_example :
    let t = run whole "BTCUSDT" (depth bad_update ∷ apply_pending ∷ []) (system_in ready) in
    IsWritten bids_read before_bad book t.book
    × (t.book.last_update_id ≡ 10)
    × (t.sync.last_applied_u ≡ some 20)
    × (t.sync.state ≡ ready)
live_update_half_applied_example =
    live_update_half_applied whole "BTCUSDT" bad_update (system_in ready) 10 bids_read before_bad
      idle refl refl refl (omega arith) book-IsValid refl update_bids parse_float bad_asks

depth_lost_while_loading_example :
    run whole "BTCUSDT" (map depth (update ∷ bad_update ∷ [])) (system_in snapshot_loading)
    ≡ system_in snapshot_loading
depth_lost_while_loading_example =
    depth_lost_while_loading whole "BTCUSDT" (update ∷ bad_update ∷ []) (system_in snapshot_loading)
      refl

loading_IsSound : IsSound (system_in snapshot_loading)
loading_IsSound = record { book = book-IsValid; sync = tt }

run-IsSound_example : IsSound (
    run whole "BTCUSDT"
      (connected ∷ depth update ∷ task 0 timed_out ∷ depth bad_update ∷ [])
      (system_in snapshot_loading))
run-IsSound_example =
    run-IsSound whole "BTCUSDT"
      (connected ∷ depth update ∷ task 0 timed_out ∷ depth bad_update ∷ [])
      (system_in snapshot_loading) loading_IsSound

-- Two tasks, one of which holds the lock of the synchronizer.
abbrev with_tasks : System ℕ
with_tasks = record (system_in snapshot_loading) {
  tasks =
      (initial, fetching 4)
      ∷ (
        resync,
        reconciled
            (record {
              last_update_id = 10;
              bids = [];
              asks = [];
              t = none;
              e = none;
              last_update_time = none;
            })
            [],
      )
      ∷ [];
}

abbrev schedule : List (ℕ × Fetch)
schedule = (0, timed_out) ∷ (1, timed_out) ∷ (1, timed_out) ∷ (0, timed_out) ∷ []

tasks_end_example :
    (moved whole "BTCUSDT" schedule with_tasks ≤ 34)
    × (All IsOver (run_tasks whole "BTCUSDT" schedule with_tasks).tasks
        ⊎ ((i : ℕ) × (can_move whole "BTCUSDT" i (run_tasks whole "BTCUSDT" schedule with_tasks)
              ≡ true)))
tasks_end_example =
    tasks_end whole "BTCUSDT" schedule with_tasks ((omega arith, omega arith), (tt, tt))
