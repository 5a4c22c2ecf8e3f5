-- ===== src/Trades/Processor.antt =====
-- src/trades/processor.rs. The head of `recent_ids` is the front of the deque.
use futures_orderbook.Prelude.{
  ℕ, ◌++◌, List, [], ◌∷◌, Bool, false, ◌||◌, Option, none, some, ltb, ◌==◌, if◌then◌else◌, length,
}
use futures_orderbook.Prelude.Word.{add64}
use futures_orderbook.Trades.Trade.{AggressorSide, buy, sell, TradeEvent}

-- `DUPLICATE_WINDOW`
abbrev pub duplicate_window : ℕ
duplicate_window = 4096

pub data TradeProcessResult : Type 0 where
  processed duplicate stale ignored : TradeProcessResult

pub record TradeProcessor : Type 0 where
  pub last_trade_id : Option ℕ
  pub recent_ids : List ℕ
  pub trade_events_received : ℕ
  pub trade_events_processed : ℕ
  pub duplicate_trades : ℕ
  pub stale_trades : ℕ
  pub malformed_trade_events : ℕ
  pub marker_events_rejected : ℕ
  pub trade_reconnect_count : ℕ
  pub buy_aggressor_count : ℕ
  pub sell_aggressor_count : ℕ
  pub last_trade : Option TradeEvent

unfoldable pub new : TradeProcessor
new = record {
  last_trade_id = none;
  recent_ids = [];
  trade_events_received = 0;
  trade_events_processed = 0;
  duplicate_trades = 0;
  stale_trades = 0;
  malformed_trade_events = 0;
  marker_events_rejected = 0;
  trade_reconnect_count = 0;
  buy_aggressor_count = 0;
  sell_aggressor_count = 0;
  last_trade = none;
}

unfoldable pub contains : ℕ → List ℕ → Bool
contains id [] = false
contains id (x ∷ xs) = x == id || contains id xs

abbrev pub pop_front : List ℕ → List ℕ
pop_front [] = []
pop_front (x ∷ xs) = xs

-- `push_back`, then `pop_front` if the window is exceeded.
unfoldable pub remember : ℕ → List ℕ → List ℕ
remember id ids =
    let pushed = ids ++ id ∷ [] in
    if ltb duplicate_window (length pushed) then pop_front pushed else pushed

abbrev pub is_older : ℕ → Option ℕ → Bool
is_older id none = false
is_older id (some last_id) = ltb id last_id

abbrev pub bought : AggressorSide → ℕ → ℕ
bought buy n = add64 n 1
bought sell n = n

abbrev pub sold : AggressorSide → ℕ → ℕ
sold buy n = n
sold sell n = add64 n 1

abbrev pub receive : TradeProcessor → TradeProcessor
receive p = record p { trade_events_received = add64 p.trade_events_received 1 }

abbrev pub accept : TradeEvent → TradeProcessor → TradeProcessor
accept event p = record p {
  last_trade_id = some event.trade_id;
  recent_ids = remember event.trade_id p.recent_ids;
  buy_aggressor_count = bought event.aggressor p.buy_aggressor_count;
  sell_aggressor_count = sold event.aggressor p.sell_aggressor_count;
  trade_events_processed = add64 p.trade_events_processed 1;
  last_trade = some event;
}

unfoldable pub process : TradeEvent → TradeProcessor → TradeProcessor × TradeProcessResult
process event p =
    let q = receive p in
    if contains event.trade_id p.recent_ids
    then (record q { duplicate_trades = add64 p.duplicate_trades 1 }, duplicate)
    else if is_older event.trade_id p.last_trade_id
    then (record q { stale_trades = add64 p.stale_trades 1 }, stale)
    else (accept event q, processed)

unfoldable pub on_trade_reconnect : TradeProcessor → TradeProcessor
on_trade_reconnect p = record p { trade_reconnect_count = add64 p.trade_reconnect_count 1 }

unfoldable pub record_malformed : TradeProcessor → TradeProcessor
record_malformed p = record p { malformed_trade_events = add64 p.malformed_trade_events 1 }

unfoldable pub record_marker_rejected : TradeProcessor → TradeProcessor
record_marker_rejected p = record p { marker_events_rejected = add64 p.marker_events_rejected 1 }
