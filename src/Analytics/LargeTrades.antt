-- ===== src/Analytics/LargeTrades.antt =====
-- src/analytics/large_trades.rs: the trades at or above a threshold. The head of `recent` is the front
-- of the deque.
use futures_orderbook.Prelude.{
  ℕ, ◌*◌, List, [], ◌∷◌, ◌++◌, Option, none, some, ltb, if◌then◌else◌, length,
}
use futures_orderbook.Prelude.Word.{add64}
use futures_orderbook.Trades.Trade.{AggressorSide, TradeEvent, label}
use futures_orderbook.Analytics.Derived
use futures_orderbook.Analytics.Derived.{
  AnalyticsEvent, large_trade, of_large_trade, with_side, with_price, with_quantity, with_detail,
}

pub record LargeTrade : Type 0 where
  pub ts_ms : ℕ
  pub price : ℕ
  pub quantity : ℕ
  pub side : AggressorSide
  pub trade_id : ℕ
  pub notional_ticks : ℕ
  pub threshold_ticks : ℕ

pub record LargeTradeDetector : Type 0 where
  pub threshold_ticks : ℕ
  pub count : ℕ
  pub recent : List LargeTrade

unfoldable pub new : ℕ → LargeTradeDetector
new large_trade_min_quantity_ticks = record {
  threshold_ticks = large_trade_min_quantity_ticks;
  count = 0;
  recent = [];
}

abbrev pub large_of : TradeEvent → ℕ → LargeTrade
large_of trade threshold = record {
  ts_ms = trade.trade_time;
  price = trade.price_ticks;
  quantity = trade.quantity_ticks;
  side = trade.aggressor;
  trade_id = trade.trade_id;
  notional_ticks = trade.price_ticks * trade.quantity_ticks;
  threshold_ticks = threshold;
}

abbrev pop_front : List LargeTrade → List LargeTrade
pop_front [] = []
pop_front (x ∷ xs) = xs

abbrev pub bounded : List LargeTrade → List LargeTrade
bounded recent = if ltb 512 (length recent) then pop_front recent else recent

abbrev pub event_of : TradeEvent → LargeTrade → AnalyticsEvent
event_of trade lt = with_detail (of_large_trade lt.trade_id lt.notional_ticks lt.threshold_ticks) (
    with_quantity lt.quantity (
      with_price lt.price
        (with_side (label lt.side) (Derived.new large_trade lt.ts_ms trade.symbol))))

unfoldable pub check : TradeEvent → LargeTradeDetector → LargeTradeDetector × Option AnalyticsEvent
check trade d =
    let lt = large_of trade d.threshold_ticks in
    if ltb trade.quantity_ticks d.threshold_ticks then (d, none) else (
      record d { count = add64 d.count 1; recent = bounded (d.recent ++ lt ∷ []) },
      some (event_of trade lt),
    )
