-- ===== src/Analytics/Engine/History.antt =====
-- The engine over a history of events: its snapshots, and how they add up to the session.
use futures_orderbook.Prelude.{
  ℕ, String, ◌<◌, refl, sym, subst, List, [], ◌∷◌, ◌++◌, true, false, some, All,
}
use mathlib.Core.List.{append_assoc, append-nil}
use futures_orderbook.Prelude.Word.{u64_mod}
use futures_orderbook.Level.Floats.{F64}
use futures_orderbook.Events.{
  MarketEvent, order_book_synchronized, order_book_snapshot, order_book_updated,
  order_book_resync_started, order_book_resync_completed, trade, connection_status_changed,
}
use futures_orderbook.Analytics.Shadow.{LevelChange, ShadowBook, apply_update}
use futures_orderbook.Analytics.Flow
use futures_orderbook.Analytics.Flow.{FlowTotals, TradeFlow, add_totals, record_large_trade}
use futures_orderbook.Analytics.Liquidity
use futures_orderbook.Analytics.Liquidity.{clear, reset_interval}
use futures_orderbook.Analytics.LargeTrades
use futures_orderbook.Analytics.LargeTrades.{LargeTradeDetector, check}
use futures_orderbook.Analytics.Sweeps
use futures_orderbook.Analytics.Sweeps.{SweepDetector, on_cluster}
use futures_orderbook.Analytics.Absorption
use futures_orderbook.Analytics.Absorption.{
  AbsorptionDetector, on_liquidity_change, on_opposing_liquidity,
}
use futures_orderbook.Analytics.Config.{AnalyticsConfig}
use futures_orderbook.Analytics.Engine.{AnalyticsEngine, Turn, new}
use futures_orderbook.Analytics.Engine.Updates.{on_changes, note_crossed}
use futures_orderbook.Analytics.Engine.Process.{on_update, dispatch, prune, process_event}
use futures_orderbook.Analytics.Engine.Ledger.{ledger, Snaps, IsHistory}
use futures_orderbook.Analytics.Engine.Booked.{
  Holds, finalize-Holds, on_snapshot-Holds, note_crossed-Holds, on_changes-Holds,
}
use futures_orderbook.Analytics.Engine.Traded.{on_trade-Holds}

module _ (fl : F64) where
  open fl use {Float}

  -- The quantity of a trade is a `u64`.
  abbrev pub IsWord : MarketEvent Float → Type 0
  IsWord (trade event) = event.quantity_ticks < u64_mod
  IsWord _ = Unit

  -- The engine after the events, and the snapshots on the way.
  unfoldable pub run :
      List (MarketEvent Float) → AnalyticsEngine Float → AnalyticsEngine Float × Snaps Float
  run [] e = (e, [])
  run (ev ∷ events) e =
      let (next, out) = process_event fl ev e in
      let (end, later) = run events next in (end, out.snapshots ++ later)

  module _ (before : Snaps Float) where
    on_update-Holds :
        (symbol : String) (update_id ts : ℕ) (book : ShadowBook) (changes : List LevelChange)
        (t : Turn Float)
        → Holds fl before t
        → Holds fl before (on_update fl symbol update_id ts (book, changes) t)
    unfolding on_update
    on_update-Holds symbol update_id ts book changes t h =
        let updated = record t {
          engine = record t.engine { last_event_ts = some ts; book = book };
        } in
        let changed = on_changes fl ts changes updated in
        finalize-Holds fl before ts (note_crossed fl symbol update_id changed) (
          note_crossed-Holds fl before symbol update_id changed
            (on_changes-Holds fl before ts changes updated h))

    dispatch-Holds :
        (ev : MarketEvent Float) (t : Turn Float)
        → IsWord ev
        → Holds fl before t
        → Holds fl before (dispatch fl ev t)
    unfolding dispatch clear
    dispatch-Holds (order_book_synchronized symbol id bids asks) t w h = h
    dispatch-Holds (order_book_snapshot symbol update_id bids asks) t w h =
        on_snapshot-Holds fl before symbol update_id bids asks t h
    dispatch-Holds (order_book_updated symbol update_id ts bid_changes ask_changes b a mid) t w h =
        let (book, changes) = apply_update bid_changes ask_changes update_id t.engine.book in
        on_update-Holds symbol update_id ts book changes t h
    dispatch-Holds (order_book_resync_started symbol reason) t w h = h
    dispatch-Holds (order_book_resync_completed symbol id) t w h = h
    dispatch-Holds (trade event) t w h = on_trade-Holds fl before event t w h
    dispatch-Holds (connection_status_changed symbol true reconnects) t w h = h
    dispatch-Holds (connection_status_changed symbol false reconnects) t w h = h

    process_event-IsHistory :
        (ev : MarketEvent Float) (e : AnalyticsEngine Float)
        → IsWord ev
        → IsHistory before (ledger e)
        → let (next, out) = process_event fl ev e in
          IsHistory (before ++ out.snapshots) (ledger next)
    unfolding process_event prune Flow.prune Liquidity.prune
    process_event-IsHistory ev e w h =
        dispatch-Holds ev (record { engine = e; out = record { events = []; snapshots = [] } }) w
          (subst (λ ss. IsHistory ss (ledger e)) (sym (append-nil before)) h)

  run-IsHistory :
      (events : List (MarketEvent Float)) (before : Snaps Float) (e : AnalyticsEngine Float)
      → All IsWord events
      → IsHistory before (ledger e)
      → let (end, ss) = run events e in IsHistory (before ++ ss) (ledger end)
  unfolding run
  run-IsHistory [] before e w h = subst (λ ss. IsHistory ss (ledger e)) (sym (append-nil before)) h
  run-IsHistory (ev ∷ events) before e w h =
      let (next, out) = process_event fl ev e in
      let (end, later) = run events next in
      subst (λ ss. IsHistory ss (ledger end)) (append_assoc before out.snapshots later)
        (run-IsHistory events (before ++ out.snapshots) next w.1
          (process_event-IsHistory before ev e w.0 h))

  -- From a new engine and any events, with trade quantities below 2^64: in each of volume, bought
  -- and sold volume, delta, large trades, sweep and absorption candidates and replenishments, what
  -- the snapshots hold and what the running interval has counted sum, as machine words, to the
  -- session's number in the flow and the detectors; the cumulative delta of each snapshot is the sum
  -- of the deltas of the snapshots up to it; and each snapshot is at least the configured interval,
  -- or 1 ms if that is 0, after the one before it.
  pub run-new-IsHistory :
      (events : List (MarketEvent Float)) (cfg : AnalyticsConfig Float)
      → All IsWord events
      → let (end, ss) = run events (new fl cfg) in IsHistory ss (ledger end)
  unfolding new Flow.new Liquidity.new LargeTrades.new Sweeps.new Absorption.new
  run-new-IsHistory events cfg w = run-IsHistory events [] (new fl cfg) w (record {
    volume = refl;
    bought = refl;
    sold = refl;
    delta = refl;
    large = refl;
    swept = refl;
    absorbed = refl;
    filled = refl;
    cvd = tt;
    spaced = tt;
    last = refl;
  })
