-- ===== src/Analytics/Heatmap/Calls.antt =====
-- A history of the heatmap: the calls that feed it, and what the trades among them do to the flow.
use futures_orderbook.Prelude.{ℕ, List, [], ◌∷◌, ◌+◌, ◌<◌}
use futures_orderbook.Prelude.Word.{u64_mod}
use futures_orderbook.Trades.Trade.{TradeEvent}
use futures_orderbook.Analytics.Shadow.{LevelChange}
use futures_orderbook.Analytics.Flow
use futures_orderbook.Analytics.Flow.{TradeFlow}
use futures_orderbook.Analytics.Heatmap.{
  Heatmap, on_trade, on_large_trade, on_level_change, on_sweep, on_absorption, on_replenishment,
}

pub data Call : Type 0 where
  trade large : TradeEvent → Call
  level : LevelChange → ℕ → Call
  sweep absorption replenishment : ℕ → ℕ → Call

unfoldable pub call : Call → Heatmap → Heatmap
call (trade t) h = on_trade t h
call (large t) h = on_large_trade t h
call (level change ts) h = on_level_change change ts h
call (sweep price ts) h = on_sweep price ts h
call (absorption price ts) h = on_absorption price ts h
call (replenishment price ts) h = on_replenishment price ts h

unfoldable pub feed_all : List Call → Heatmap → Heatmap
feed_all [] h = h
feed_all (c ∷ calls) h = feed_all calls (call c h)

-- The trade flow, given the trades of the history.
abbrev pub flow_call : Call → TradeFlow → TradeFlow
flow_call (trade t) f = (Flow.on_trade t f).0
flow_call _ f = f

unfoldable pub flow_all : List Call → TradeFlow → TradeFlow
flow_all [] f = f
flow_all (c ∷ calls) f = flow_all calls (flow_call c f)

-- The quantity of a trade is a `u64`.
abbrev pub IsWord : Call → Type 0
IsWord (trade t) = t.quantity_ticks < u64_mod
IsWord _ = Unit

-- What a call adds to the counts of candidates and to the volume of large trades.
abbrev pub sweeps : Call → ℕ
sweeps (sweep price ts) = 1
sweeps _ = 0

abbrev pub absorptions : Call → ℕ
absorptions (absorption price ts) = 1
absorptions _ = 0

abbrev pub replenishments : Call → ℕ
replenishments (replenishment price ts) = 1
replenishments _ = 0

abbrev pub large_volume : Call → ℕ
large_volume (large t) = t.quantity_ticks
large_volume _ = 0

abbrev pub amounts : (Call → ℕ) → List Call → ℕ
amounts f [] = 0
amounts f (c ∷ calls) = f c + amounts f calls
