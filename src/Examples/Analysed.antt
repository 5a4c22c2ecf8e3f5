-- ===== src/Examples/Analysed.antt =====
-- The analytics engine at concrete events.
use futures_orderbook.Prelude.{
  ℕ, false, ◌<◌, ◌-◌, true, ◌==◌, ◌≡◌, refl, List, [], ◌∷◌, none, some, if◌then◌else◌, arith,
}
use futures_orderbook.TreeMap.{get}
use futures_orderbook.Events.{
  MarketEvent, order_book_snapshot, order_book_updated, trade, connection_status_changed,
}
use futures_orderbook.Level.Whole.{whole}
use futures_orderbook.Trades.Trade.{TradeEvent}
use futures_orderbook.Book.View.{snapshot}
use futures_orderbook.Book.Apply.{apply_depth_update}
use futures_orderbook.Engine.Defs.{pairs, updated_event}
use futures_orderbook.Analytics.Follow.{Mirrors}
use futures_orderbook.Analytics.Config.{AnalyticsConfig, btcusdt_default}
use futures_orderbook.Analytics.Absorption.{AbsorptionWindow, AbsorptionDetector, opened, on_trade}
use futures_orderbook.Analytics.Absorption.Expired.{Tells, on_trade_expired}
use futures_orderbook.Analytics.Engine.{AnalyticsEngine, new}
use futures_orderbook.Analytics.Engine.Process.{process_event}
use futures_orderbook.Analytics.Engine.Ledger.{ledger, IsHistory}
use futures_orderbook.Analytics.Engine.History.{run, run-new-IsHistory}
use futures_orderbook.Analytics.Engine.Mirror.{
  process_event-updated-Mirrors, process_event-snapshot-Mirrors,
}
use futures_orderbook.Examples.Data.{book, book-IsValid, trade_of}
use futures_orderbook.Examples.Shadows.{shadow, update, accepted}

abbrev pub config : AnalyticsConfig ℕ
config = btcusdt_default whole

abbrev pub events : List (MarketEvent ℕ)
events =
    order_book_snapshot "BTCUSDT" 10 ((5, 2) ∷ []) ((7, 3) ∷ [])
    ∷ trade (trade_of 7)
    ∷ order_book_updated "BTCUSDT" 11 3000 (record { price = 8; new_qty = 1; old_qty = none } ∷ [])
        [] none none none
    ∷ connection_status_changed "BTCUSDT" false 1
    ∷ trade (trade_of 9)
    ∷ []

run-new-IsHistory_example :
    let (end, ss) = run whole events (new whole config) in IsHistory ss (ledger end)
run-new-IsHistory_example =
    run-new-IsHistory whole events config (tt, (omega arith, (tt, (tt, (omega arith, tt)))))

-- A new engine that has loaded the book.
abbrev mirroring : AnalyticsEngine ℕ
mirroring = record (new whole config) { book = shadow }

process_event-updated-Mirrors_example :
    let (c, _) = apply_depth_update whole update.bids update.asks 20 book in
    let (next, _) = process_event whole (updated_event whole "BTCUSDT" update c) mirroring in
    Mirrors next.book c × (next.book.last_update_id ≡ some c.last_update_id)
process_event-updated-Mirrors_example =
    process_event-updated-Mirrors whole "BTCUSDT" update book mirroring (refl, refl) accepted

process_event-snapshot-Mirrors_example :
    let full = snapshot whole book in
    let (next, _) =
      process_event whole
        (order_book_snapshot "BTCUSDT" full.last_update_id
          (pairs whole "BTCUSDT" full.bids)
          (pairs whole "BTCUSDT" full.asks))
        (new whole config) in
    Mirrors next.book book
    × (next.book.ready ≡ true)
    × (next.book.last_update_id ≡ some book.last_update_id)
process_event-snapshot-Mirrors_example =
    process_event-snapshot-Mirrors whole "BTCUSDT" book (new whole config) book-IsValid

-- Two seconds after the window was opened.
abbrev late : TradeEvent
late = record (trade_of 9) { trade_time = 3000 }

abbrev window : AbsorptionWindow
window = opened (record (trade_of 7) { trade_time = 1000 }) 5 3

abbrev detector : AbsorptionDetector ℕ
detector = record { cfg = config; windows = (late.price_ticks, window) ∷ []; count = 0 }

found : get late.price_ticks detector.windows ≡ some window
unfolding get
found = refl

is_late : detector.cfg.absorption_window_ms < late.trade_time - window.open_ms
unfolding btcusdt_default
is_late = omega arith

on_trade_expired_example :
    let (next, out) = on_trade whole late 5 3 detector in
    ((price : ℕ)
      → get price next.windows
        ≡ (if late.price_ticks == price then none else get price detector.windows))
    × Tells whole window out
on_trade_expired_example =
    on_trade_expired whole late 5 3 window detector (omega arith, tt) found is_late
