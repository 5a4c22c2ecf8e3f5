-- ===== src/Trades/Passed.antt =====
-- No trade is processed twice, and trades are processed in the order of their ids.
use futures_orderbook.Prelude.{ℕ, List, [], ◌∷◌, Option, none, some, subst, sym, inl, inr}
use futures_orderbook.Trades.Trade.{TradeEvent}
use futures_orderbook.Trades.Processor.{
  TradeProcessor, TradeProcessResult, processed, duplicate, stale, ignored, new, process,
}
use futures_orderbook.Trades.Order.{
  IsOrdered, IsNew, Outcome, process_outcomes, process-IsOrdered, new-IsOrdered,
}

abbrev pub keep : ℕ → TradeProcessResult → List ℕ → List ℕ
keep id processed ids = id ∷ ids
keep id duplicate ids = ids
keep id stale ids = ids
keep id ignored ids = ids

-- The ids of the events that the processor passes on.
unfoldable pub passed : List TradeEvent → TradeProcessor → List ℕ
passed [] p = []
passed (event ∷ events) p =
    keep event.trade_id (process event p).1 (passed events (process event p).0)

abbrev pub Climbs : Option ℕ → List ℕ → Type 0
Climbs last [] = Unit
Climbs last (id ∷ ids) = IsNew id last × Climbs (some id) ids

Outcome-Climbs :
    (event : TradeEvent) (p : TradeProcessor) (r : TradeProcessor × TradeProcessResult)
    (ids : List ℕ)
    → Outcome event p r
    → Climbs (r.0).last_trade_id ids
    → Climbs p.last_trade_id (keep event.trade_id r.1 ids)
Outcome-Climbs event p (q, r) ids (inl (n, e, last, _, _)) c =
    subst (λ t. Climbs p.last_trade_id (keep event.trade_id t ids)) (sym e)
      (n, subst (λ l. Climbs l ids) last c)
Outcome-Climbs event p (q, r) ids (inr (_, inl e, last, _, _)) c =
    subst (λ t. Climbs p.last_trade_id (keep event.trade_id t ids)) (sym e)
      (subst (λ l. Climbs l ids) last c)
Outcome-Climbs event p (q, r) ids (inr (_, inr e, last, _, _)) c =
    subst (λ t. Climbs p.last_trade_id (keep event.trade_id t ids)) (sym e)
      (subst (λ l. Climbs l ids) last c)

passed-Climbs :
    (events : List TradeEvent) (p : TradeProcessor)
    → IsOrdered p
    → Climbs p.last_trade_id (passed events p)
unfolding passed
passed-Climbs [] p o = tt
passed-Climbs (event ∷ events) p o =
    Outcome-Climbs event p (process event p) _ (process_outcomes event p o)
      (passed-Climbs events (process event p).0 (process-IsOrdered event p o))

-- Whatever events a new processor is given, the ids of the trades that it passes on are strictly
-- increasing: none is passed on twice, and none after a later one.
pub passed_increasing : (events : List TradeEvent) → Climbs none (passed events new)
unfolding new
passed_increasing events = passed-Climbs events new new-IsOrdered
