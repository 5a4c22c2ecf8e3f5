-- ===== src/Trades/Counts.antt =====
-- The counters of the trade processor: every event received is counted once more, by its result.
use futures_orderbook.Prelude.{
  ℕ, ◌+◌, ◌<◌, ◌≡◌, refl, List, [], ◌∷◌, Bool-cases, inl, inr, length, arith,
}
use futures_orderbook.Prelude.Word.{u64_mod}
use futures_orderbook.Trades.Trade.{AggressorSide, buy, sell, TradeEvent}
use futures_orderbook.Trades.Processor.{
  TradeProcessor, new, contains, is_older, process, receive, accept, bought, sold,
}

-- `m` events were received; each is in one class, and each that was passed on has one side.
pub record IsTallied (m : ℕ) (p : TradeProcessor) : Type 0 where
  pub received : p.trade_events_received ≡ m
  pub by_result : p.trade_events_processed + p.duplicate_trades + p.stale_trades ≡ m
  pub by_side : p.buy_aggressor_count + p.sell_aggressor_count ≡ p.trade_events_processed

sides :
    (side : AggressorSide) (b s : ℕ) → b + s + 1 < u64_mod → bought side b + sold side s ≡ b + s + 1
sides buy b s h = omega arith
sides sell b s h = omega arith

accept-IsTallied :
    (event : TradeEvent) (m : ℕ) (p : TradeProcessor)
    → m + 1 < u64_mod
    → IsTallied m p
    → IsTallied (m + 1) (accept event (receive p))
accept-IsTallied event m p room v = record {
  received = omega (arith, v.received);
  by_result = omega (arith, v.by_result);
  by_side = omega (
    arith,
    sides event.aggressor p.buy_aggressor_count p.sell_aggressor_count
        (omega (arith, v.by_side, v.by_result)),
    v.by_side,
    v.by_result,
  );
}

process-IsTallied :
    (event : TradeEvent) (m : ℕ) (p : TradeProcessor)
    → m + 1 < u64_mod
    → IsTallied m p
    → IsTallied (m + 1) (process event p).0
unfolding process
process-IsTallied event m p room v = elim (Bool-cases (contains event.trade_id p.recent_ids)) [
  | inl seen ↦ rw seen (record {
    received = omega (arith, v.received);
    by_result = omega (arith, v.by_result);
    by_side = v.by_side;
  })
  | inr fresh ↦ rw fresh (elim (Bool-cases (is_older event.trade_id p.last_trade_id)) [
    | inl older ↦ rw older (record {
      received = omega (arith, v.received);
      by_result = omega (arith, v.by_result);
      by_side = v.by_side;
    })
    | inr newer ↦ rw newer (accept-IsTallied event m p room v)
  ])
]

unfoldable pub process_all : List TradeEvent → TradeProcessor → TradeProcessor
process_all [] p = p
process_all (event ∷ events) p = process_all events (process event p).0

process_all-IsTallied :
    (events : List TradeEvent) (m : ℕ) (p : TradeProcessor)
    → m + length events < u64_mod
    → IsTallied m p
    → IsTallied (m + length events) (process_all events p)
unfolding process_all
process_all-IsTallied [] m p room v = record {
  received = omega (arith, v.received);
  by_result = omega (arith, v.by_result);
  by_side = v.by_side;
}
process_all-IsTallied (event ∷ events) m p room v =
    let w =
      process_all-IsTallied events (m + 1) (process event p).0 (omega arith)
        (process-IsTallied event m p (omega arith) v) in
    record {
      received = omega (arith, w.received);
      by_result = omega (arith, w.by_result);
      by_side = w.by_side;
    }

-- A new processor that is given fewer than 2^64 events has received as many as it was given, each
-- was processed, a duplicate or stale, and each processed one is counted as a buy or as a sell.
process_all_counts :
    (events : List TradeEvent)
    → length events < u64_mod
    → IsTallied (length events) (process_all events new)
unfolding new
process_all_counts events few =
    let w =
      process_all-IsTallied events 0 new (omega arith)
        (record { received = refl; by_result = refl; by_side = refl }) in
    record {
      received = omega (arith, w.received);
      by_result = omega (arith, w.by_result);
      by_side = w.by_side;
    }
