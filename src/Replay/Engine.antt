-- ===== src/Replay/Engine.antt =====
-- src/replay/engine.rs: `run_replay`. The pacing of `ReplayTiming` only sleeps. `fed` holds the events
-- that the analytics engine is given, if it is enabled.
use futures_orderbook.Prelude.{
  ℕ, List, [], ◌∷◌, ◌++◌, Bool, false, Option, none, some, ltb, if◌then◌else◌, length, Result, ok,
  err, ◌>>=◌,
}
use futures_orderbook.Prelude.Word.{add64, sub64}
use futures_orderbook.Level.Floats.{F64}
use futures_orderbook.Error.{AnyError}
use futures_orderbook.Binance.{DepthUpdate}
use futures_orderbook.Events
use futures_orderbook.Events.{MarketEvent, order_book_snapshot}
use futures_orderbook.Book.Defs.{OrderBook, Quote}
use futures_orderbook.Book.Defs.{new as new_book}
use futures_orderbook.Book.Apply.{apply_snapshot, apply_depth_update}
use futures_orderbook.Book.View.{snapshot as book_snapshot}
use futures_orderbook.Sync.State.{
  SyncState, buffering, snapshot_loading, synchronizing, ready, reconnecting,
}
use futures_orderbook.Sync.Defs.{new as new_sync}
use futures_orderbook.Sync.Defs.{
  Synchronizer, ProcessResult, apply, SyncError, on_connected, on_snapshot_loading, buffer_event,
  process_live_event, reconcile, trigger_resync,
}
use futures_orderbook.Trades.Trade.{TradeEvent}
use futures_orderbook.Trades.Processor
use futures_orderbook.Trades.Processor.{TradeProcessor, TradeProcessResult, processed, process}
use futures_orderbook.Engine.Defs.{updated_event, pairs}
use futures_orderbook.Replay.Reader.{ReplayEvent, snapshot, depth, trade, seq}

-- The numbers of `ReplayOutcome` that the loop counts.
pub record Counts : Type 0 where
  pub events_total : ℕ
  pub depth_events : ℕ
  pub snapshots_applied : ℕ
  pub events_applied : ℕ
  pub events_ignored : ℕ
  pub sequence_errors : ℕ
  pub trades_processed : ℕ
  pub trades_skipped : ℕ

-- The local variables of the loop.
pub record Replay (Float : Type 0) : Type 0 where
  pub sync : Synchronizer
  pub book : OrderBook
  pub trade_proc : TradeProcessor
  pub counts : Counts
  pub fed : List (MarketEvent Float)

pub record ReplayConfig : Type 0 where
  pub seq_start : Option ℕ
  pub seq_end : Option ℕ
  pub analytics : Bool

-- The fields of `ReplayOutcome`, without the duration and the digests.
pub record ReplayOutcome (Float : Type 0) : Type 0 where
  pub counts : Counts
  pub final_update_id : ℕ
  pub book_bid_levels : ℕ
  pub book_ask_levels : ℕ
  pub best_bid : Option ℕ
  pub best_ask : Option ℕ
  pub mid_price : Option Float
  pub spread : Option ℕ

abbrev pub before_start : Option ℕ → ℕ → Bool
before_start none n = false
before_start (some start) n = ltb n start

abbrev pub after_end : Option ℕ → ℕ → Bool
after_end none n = false
after_end (some end) n = ltb end n

module _ (fl : F64) (config : ReplayConfig) where
  open fl use {Float}

  abbrev feed : MarketEvent Float → Replay Float → Replay Float
  feed e r = if config.analytics then record r { fed = r.fed ++ e ∷ [] } else r

  -- The loop over the reconciled events: the first error ends the replay.
  unfoldable pub apply_reconciled : List DepthUpdate → Replay Float → Result (Replay Float) AnyError
  apply_reconciled [] r = ok r
  apply_reconciled (e ∷ events) r =
      let (b, result) = apply_depth_update fl e.bids e.asks e.final_update_id r.book in
      let next = record r {
        book = b;
        counts = record r.counts { events_applied = add64 r.counts.events_applied 1 };
      } in
      result >>= λ u. apply_reconciled events next

  abbrev after_reconcile :
      Result (List DepthUpdate) SyncError → Replay Float → Result (Replay Float) AnyError
  after_reconcile (ok events) r = apply_reconciled events r
  after_reconcile (err e) r = ok (record r {
    sync = trigger_resync r.sync;
    counts = record r.counts { sequence_errors = add64 r.counts.sequence_errors 1 };
  })

  abbrev seed : ℕ → Replay Float → Replay Float
  seed update_id r =
      let full = book_snapshot fl r.book in
      feed
        (order_book_snapshot "BTCUSDT" update_id (pairs fl "BTCUSDT" full.bids)
          (pairs fl "BTCUSDT" full.asks))
        r

  unfoldable pub on_snapshot :
      ℕ → (bids asks : List Quote) → Replay Float → Result (Replay Float) AnyError
  on_snapshot update_id bids asks r =
      let (b, loaded) = apply_snapshot fl bids asks update_id r.book in
      let (s, events) = reconcile update_id (on_snapshot_loading r.sync) in
      let next = record r {
        sync = s;
        book = b;
        counts = record r.counts { snapshots_applied = add64 r.counts.snapshots_applied 1 };
      } in
      loaded >>= λ u. after_reconcile events next >>= λ done. ok (seed update_id done)

  abbrev count_ignored : Replay Float → Replay Float
  count_ignored r = record r {
    counts = record r.counts { events_ignored = add64 r.counts.events_ignored 1 };
  }

  abbrev apply_live : DepthUpdate → Replay Float → Result (Replay Float) AnyError
  apply_live update r =
      let (b, result) =
        apply_depth_update fl update.bids update.asks update.final_update_id r.book in
      let next = record r {
        book = b;
        counts = record r.counts { events_applied = add64 r.counts.events_applied 1 };
      } in
      result >>= λ u. ok (feed (updated_event fl update.symbol update b) next)

  -- The match on the result of `process_live_event`.
  abbrev on_live : DepthUpdate → ProcessResult → Replay Float → Result (Replay Float) AnyError
  on_live update apply r = apply_live update r
  on_live update ProcessResult.stale r = ok (count_ignored r)
  on_live update ProcessResult.ignored r = ok (count_ignored r)
  on_live update ProcessResult.pu_mismatch r = ok (record r {
    sync = trigger_resync r.sync;
    counts = record r.counts { sequence_errors = add64 r.counts.sequence_errors 1 };
  })
  on_live update ProcessResult.buffered r = ok r

  -- The match on the state.
  abbrev on_depth_in : SyncState → DepthUpdate → Replay Float → Result (Replay Float) AnyError
  on_depth_in ready update r =
      let (s, result) = process_live_event update r.sync in
      on_live update result (record r { sync = s })
  on_depth_in buffering update r = ok (record r { sync = buffer_event update r.sync })
  on_depth_in reconnecting update r = ok (record r { sync = buffer_event update r.sync })
  on_depth_in snapshot_loading update r = ok (record r { sync = buffer_event update r.sync })
  on_depth_in synchronizing update r = ok (record r { sync = buffer_event update r.sync })
  on_depth_in _ update r = ok (count_ignored r)

  unfoldable pub on_depth : DepthUpdate → Replay Float → Result (Replay Float) AnyError
  on_depth update r =
      on_depth_in r.sync.state update
        (record r { counts = record r.counts { depth_events = add64 r.counts.depth_events 1 } })

  abbrev on_processed : TradeEvent → TradeProcessResult → Replay Float → Replay Float
  on_processed event processed r = feed (Events.trade event) (record r {
    counts = record r.counts { trades_processed = add64 r.counts.trades_processed 1 };
  })
  on_processed event _ r = record r {
    counts = record r.counts { trades_skipped = add64 r.counts.trades_skipped 1 };
  }

  unfoldable pub on_trade : TradeEvent → Replay Float → Replay Float
  on_trade event r =
      let (p, result) = process event r.trade_proc in
      on_processed event result (record r { trade_proc = p })

  unfoldable pub on_event : ReplayEvent → Replay Float → Result (Replay Float) AnyError
  on_event (snapshot n id time bids asks) r = on_snapshot id bids asks r
  on_event (depth n update) r = on_depth update r
  on_event (trade n event) r = ok (on_trade event r)

  -- `continue` before the start, `break` after the end.
  unfoldable pub replay_all : List ReplayEvent → Replay Float → Result (Replay Float) AnyError
  replay_all [] r = ok r
  replay_all (e ∷ events) r =
      if before_start config.seq_start (seq e)
      then replay_all events r
      else if after_end config.seq_end (seq e)
      then ok r
      else (on_event e r >>= λ next. replay_all events next)

  abbrev spread_of : Option ℕ → Option ℕ → Option ℕ
  spread_of (some b) (some a) = some (sub64 a b)
  spread_of (some b) none = none
  spread_of none a = none

  abbrev pub finish : Replay Float → ReplayOutcome Float
  finish r =
      let snap = book_snapshot fl r.book in
      record {
        counts = r.counts;
        final_update_id = r.book.last_update_id;
        book_bid_levels = length snap.bids;
        book_ask_levels = length snap.asks;
        best_bid = snap.best_bid;
        best_ask = snap.best_ask;
        mid_price = snap.mid_price;
        spread = spread_of snap.best_bid snap.best_ask;
      }

  abbrev pub begin : List ReplayEvent → Replay Float
  begin events = record {
    sync = on_connected new_sync;
    book = new_book;
    trade_proc = Processor.new;
    counts = record {
      events_total = length events;
      depth_events = 0;
      snapshots_applied = 0;
      events_applied = 0;
      events_ignored = 0;
      sequence_errors = 0;
      trades_processed = 0;
      trades_skipped = 0;
    };
    fed = [];
  }

  unfoldable pub run_replay : List ReplayEvent → Result (ReplayOutcome Float) AnyError
  run_replay events = replay_all events (begin events) >>= λ r. ok (finish r)
