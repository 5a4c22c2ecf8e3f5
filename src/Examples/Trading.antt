-- ===== src/Examples/Trading.antt =====
-- The normaliser and the trade processor at concrete trades.
use futures_orderbook.Prelude.{List, [], ◌∷◌, none, true, arith}
use futures_orderbook.Level.Whole.{whole}
use futures_orderbook.Trades.Trade.{TradeEvent}
use futures_orderbook.Trades.Normalizer.{
  FuturesTrade, Explains, normalize_trade, normalize_trade_explained,
}
use futures_orderbook.Trades.Processor.{TradeProcessor, new, process}
use futures_orderbook.Trades.Order.{
  IsOrdered, new-IsOrdered, Outcome, process_outcomes, process-IsOrdered,
}
use futures_orderbook.Trades.Passed.{Climbs, passed, passed_increasing}
use futures_orderbook.Analytics.Clusters.{new as new_tracker}
use futures_orderbook.Analytics.Clusters.Volume.{IsTracked, cluster_all, cluster_all_balances}
use futures_orderbook.Analytics.Flow.{new as new_flow}
use futures_orderbook.Analytics.Flow.Profile.{IsBalanced, flow_all, flow_all_balances}
use futures_orderbook.Examples.Data.{trade_of}

abbrev raw : FuturesTrade
raw = record {
  event_type = "trade";
  event_time = 1000;
  trade_time = 999;
  symbol = "BTCUSDT";
  trade_id = 7;
  price = "5";
  quantity = "2";
  order_type = "MARKET";
  is_buyer_maker = true;
  trade_type = 0;
}

normalize_trade_explained_example : Explains whole raw (normalize_trade whole 5 raw)
normalize_trade_explained_example = normalize_trade_explained whole 5 raw

-- The second is seen again, and the third is late.
abbrev trades : List TradeEvent
trades = trade_of 7 ∷ trade_of 9 ∷ trade_of 9 ∷ trade_of 8 ∷ trade_of 12 ∷ []

passed_increasing_example : Climbs none (passed trades new)
passed_increasing_example = passed_increasing trades

cluster_all_balances_example :
    IsTracked 500_000_000 (cluster_all whole trades (new_tracker 100 10 1 1000))
cluster_all_balances_example = cluster_all_balances whole 100 10 1 1000 trades (omega arith)

flow_all_balances_example :
    let f = flow_all trades (new_flow (100 ∷ 1000 ∷ []) 60000) in
    IsBalanced 500_000_000 f.totals f.volume_by_price
flow_all_balances_example =
    flow_all_balances (100 ∷ 1000 ∷ []) 60000 trades (omega arith, (omega arith, tt)) (omega arith)

abbrev after_one : TradeProcessor
after_one = (process (trade_of 7) new).0

after_one-IsOrdered : IsOrdered after_one
after_one-IsOrdered = process-IsOrdered (trade_of 7) new new-IsOrdered

process_outcomes_example : Outcome (trade_of 7) after_one (process (trade_of 7) after_one)
process_outcomes_example = process_outcomes (trade_of 7) after_one after_one-IsOrdered
