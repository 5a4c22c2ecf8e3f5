-- ===== src/Events.antt =====
-- `enum MarketEvent` of src/events/market.rs, over the type of the mid price.
use futures_orderbook.Prelude.{ℕ, String, List, Bool, Option}
use futures_orderbook.Trades.Trade.{TradeEvent}

-- A price, its new quantity and its old quantity.
abbrev pub Change : Type 0
Change = record { price : ℕ; new_qty : ℕ; old_qty : Option ℕ }

pub data MarketEvent (Float : Type 0) : Type 0 where
  -- symbol, last_update_id, bid_levels, ask_levels
  order_book_synchronized : String → ℕ → ℕ → ℕ → MarketEvent Float
  -- symbol, update_id, bids, asks
  order_book_snapshot : String → ℕ → List (ℕ × ℕ) → List (ℕ × ℕ) → MarketEvent Float
  -- symbol, update_id, event_time_ms, bid_changes, ask_changes, best_bid, best_ask, mid_price
  order_book_updated :
      String
      → ℕ
      → ℕ
      → List Change
      → List Change
      → Option ℕ
      → Option ℕ
      → Option Float
      → MarketEvent Float
  -- symbol, reason
  order_book_resync_started : String → String → MarketEvent Float
  -- symbol, last_update_id
  order_book_resync_completed : String → ℕ → MarketEvent Float
  trade : TradeEvent → MarketEvent Float
  -- symbol, connected, reconnect_count
  connection_status_changed : String → Bool → ℕ → MarketEvent Float
