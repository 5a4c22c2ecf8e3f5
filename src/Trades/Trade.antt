-- ===== src/Trades/Trade.antt =====
-- src/trades/trade.rs.
use futures_orderbook.Prelude.{ℕ, String, Bool, if◌then◌else◌}

pub data AggressorSide : Type 0 where
  buy sell : AggressorSide

unfoldable pub from_buyer_maker : Bool → AggressorSide
from_buyer_maker is_buyer_maker = if is_buyer_maker then sell else buy

unfoldable pub label : AggressorSide → String
label buy = "BUY"
label sell = "SELL"

pub record TradeEvent : Type 0 where
  pub symbol : String
  pub trade_id : ℕ
  pub price_ticks : ℕ
  pub quantity_ticks : ℕ
  pub event_time : ℕ
  pub trade_time : ℕ
  pub local_receive_time_ns : ℕ
  pub aggressor : AggressorSide
  pub order_type : String
