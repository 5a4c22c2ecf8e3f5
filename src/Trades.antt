-- ===== src/Trades.antt =====
-- src/trades/: trades of the stream, normalised and checked for order and repetition.
pub mod Trade
pub mod Normalizer
pub mod Processor
pub mod Order
pub mod Passed
pub mod Counts
