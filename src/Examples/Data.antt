-- ===== src/Examples/Data.antt =====
-- Test data. Prices and quantities are whole numbers, so that the instance `whole` can read them.
use futures_orderbook.Prelude.{ℕ, List, [], ◌∷◌, some, true, arith}
use futures_orderbook.Binance.{DepthUpdate}
use futures_orderbook.Book.Defs.{OrderBook, Quote}
use futures_orderbook.Book.Valid.{IsSide, IsValid}
use futures_orderbook.Sync.State.{SyncState}
use futures_orderbook.Sync.Defs.{Synchronizer}
use futures_orderbook.Trades.Trade.{TradeEvent, buy}

abbrev pub book : OrderBook
book = record {
  bids = (400_000_000, 100_000_000) ∷ (500_000_000, 200_000_000) ∷ [];
  asks = (700_000_000, 300_000_000) ∷ [];
  last_update_id = 10;
  initialized = true;
}

pub bids-IsSide : IsSide book.bids
bids-IsSide = record {
  ordered = (omega arith, (omega arith, tt));
  fits = ((omega arith, omega arith, omega arith), ((omega arith, omega arith, omega arith), tt));
}

pub asks-IsSide : IsSide book.asks
asks-IsSide = record {
  ordered = (omega arith, tt);
  fits = ((omega arith, omega arith, omega arith), tt);
}

pub book-IsValid : IsValid book
book-IsValid = record { bids = bids-IsSide; asks = asks-IsSide }

-- Removes the best bid, adds a bid, and changes the ask.
abbrev pub quotes : List Quote
quotes = ("5", "0") ∷ ("6", "1") ∷ []

abbrev pub ask_quotes : List Quote
ask_quotes = ("7", "4") ∷ []

abbrev pub bad_quotes : List Quote
bad_quotes = ("8", "1") ∷ ("x", "1") ∷ []

abbrev pub event : (first last previous : ℕ) → List Quote → List Quote → DepthUpdate
event first last previous bids asks = record {
  event_type = "depthUpdate";
  event_time = 1000;
  transaction_time = 999;
  symbol = "BTCUSDT";
  first_update_id = first;
  final_update_id = last;
  previous_final_update_id = previous;
  bids = bids;
  asks = asks;
}

abbrev pub sync_in : SyncState → List DepthUpdate → Synchronizer
sync_in state buffer = record {
  state = state;
  buffer = buffer;
  snapshot_last_update_id = 10;
  last_applied_u = some 10;
  events_received = 0;
  events_applied = 0;
  events_ignored = 0;
  sequence_errors = 0;
  resync_count = 0;
  reconnect_count = 0;
}

abbrev pub trade_of : ℕ → TradeEvent
trade_of id = record {
  symbol = "BTCUSDT";
  trade_id = id;
  price_ticks = 500_000_000;
  quantity_ticks = 100_000_000;
  event_time = 1000;
  trade_time = 999;
  local_receive_time_ns = 0;
  aggressor = buy;
  order_type = "MARKET";
}
