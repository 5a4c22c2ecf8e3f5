-- ===== src/Error.antt =====
-- src/error.rs, and what else travels in an `anyhow::Error` of the order book.
use futures_orderbook.Prelude.{ℕ, String}
use futures_orderbook.Sync.State.{SyncState}

pub data OrderBookError : Type 0 where
  sequence_gap : ℕ → ℕ → OrderBookError
  pu_continuity_failure : ℕ → ℕ → OrderBookError
  not_synchronized : SyncState → OrderBookError
  invalid_price_level : String → OrderBookError
  snapshot_already_applied : OrderBookError
  snapshot_required : OrderBookError

-- `parse_float` stands for a `ParseFloatError`, the last three for the `bail!`s of
-- `OrderBook::verify_invariants`.
pub data AnyError : Type 0 where
  order_book : OrderBookError → AnyError
  parse_float : AnyError
  zero_quantity_bid : ℕ → AnyError
  zero_quantity_ask : ℕ → AnyError
  crossed : ℕ → ℕ → AnyError
