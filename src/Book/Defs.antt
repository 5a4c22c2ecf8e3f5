-- ===== src/Book/Defs.antt =====
-- src/orderbook/book.rs: the local order book. Both sides are maps from price ticks to quantity
-- ticks in ascending order, as in the code (its comments speak of negated keys for bids, which the
-- code does not use: the best bid is the last key).
use futures_orderbook.Prelude.{ℕ, String, [], Bool, false, Option, length}
use futures_orderbook.TreeMap.{TreeMap, first_key, last_key}

pub record OrderBook : Type 0 where
  pub bids : TreeMap ℕ
  pub asks : TreeMap ℕ
  pub last_update_id : ℕ
  pub initialized : Bool

-- A price and a quantity, as text.
abbrev pub Quote : Type 0
Quote = String × String

unfoldable pub new : OrderBook
new = record { bids = []; asks = []; last_update_id = 0; initialized = false }

unfoldable pub clear : OrderBook → OrderBook
clear b = record b { bids = []; asks = []; last_update_id = 0; initialized = false }

unfoldable pub best_bid : OrderBook → Option ℕ
best_bid b = last_key b.bids

unfoldable pub best_ask : OrderBook → Option ℕ
best_ask b = first_key b.asks

unfoldable pub bid_count : OrderBook → ℕ
bid_count b = length b.bids

unfoldable pub ask_count : OrderBook → ℕ
ask_count b = length b.asks

unfoldable pub set_last_update_id : OrderBook → ℕ → OrderBook
set_last_update_id b id = record b { last_update_id = id }

unfoldable pub set_initialized : OrderBook → Bool → OrderBook
set_initialized b val = record b { initialized = val }
