-- ===== src/Analytics/Engine/Trading.antt =====
-- src/analytics/engine.rs: `on_trade`.
use futures_orderbook.Prelude.{ℕ, not, ◌&&◌, Option, none, some, if◌then◌else◌}
use futures_orderbook.Prelude.Word.{add64}
use futures_orderbook.Level.Floats.{F64}
use futures_orderbook.Trades.Trade.{AggressorSide, buy, sell, label, TradeEvent}
use futures_orderbook.Analytics.Shadow.{ShadowBook, best_bid, best_ask, is_crossed, depth_volume}
use futures_orderbook.Analytics.Flow
use futures_orderbook.Analytics.Flow.{TradeFlow, record_large_trade}
use futures_orderbook.Analytics.LargeTrades.{LargeTradeDetector, check}
use futures_orderbook.Analytics.Clusters
use futures_orderbook.Analytics.Clusters.{
  TradeCluster, ClusterTracker, add_buy, add_sell, add_delta,
}
use futures_orderbook.Analytics.Sweeps.{SweepDetector, on_cluster}
use futures_orderbook.Analytics.Absorption
use futures_orderbook.Analytics.Absorption.{
  AbsorptionDetector, on_liquidity_change, on_opposing_liquidity,
}
use futures_orderbook.Analytics.Heatmap
use futures_orderbook.Analytics.Heatmap.{
  Heatmap, on_large_trade, on_sweep, on_absorption, on_replenishment,
}
use futures_orderbook.Analytics.Derived
use futures_orderbook.Analytics.Derived.{
  AnalyticsEvent, AnalyticsEventKind, trade_delta, liquidity_replenishment, cluster, book_anomaly,
  of_cluster, of_reason, with_side, with_price, with_quantity, with_detail,
}
use futures_orderbook.Analytics.Engine.{AnalyticsEngine, Turn, push_event, maybe_finalize_snapshot}

module _ (fl : F64) where
  open fl use {Float}

  abbrev pub trade_event : TradeEvent → AnalyticsEvent
  trade_event trade = with_quantity trade.quantity_ticks (
      with_price trade.price_ticks
        (with_side (label trade.aggressor) (Derived.new trade_delta trade.trade_time trade.symbol)))

  abbrev pub cluster_event : TradeEvent → TradeCluster Float → AnalyticsEvent
  cluster_event trade c =
      let detail =
        of_cluster c.start_ms c.end_ms c.levels_crossed c.trade_count c.buy_volume c.sell_volume
          c.delta c.monotonic in
      with_detail detail (
        with_quantity c.total_volume (
          with_price c.last_price
            (with_side (label c.dominant_side) (Derived.new cluster c.end_ms trade.symbol))))

  -- The heatmap, the flow and the counters of the interval.
  unfoldable pub count_trade : TradeEvent → AnalyticsEngine Float → AnalyticsEngine Float
  count_trade trade e = record e {
    last_event_ts = some trade.trade_time;
    heatmap = Heatmap.on_trade trade e.heatmap;
    flow = (Flow.on_trade trade e.flow).0;
    trade_volume = add64 e.trade_volume trade.quantity_ticks;
    buy_volume = add_buy trade.aggressor trade.quantity_ticks e.buy_volume;
    sell_volume = add_sell trade.aggressor trade.quantity_ticks e.sell_volume;
    delta = add_delta trade.aggressor trade.quantity_ticks e.delta;
  }

  abbrev pub on_large :
      TradeEvent → LargeTradeDetector × Option AnalyticsEvent → Turn Float → Turn Float
  on_large trade (d, none) t = record t { engine = record t.engine { large_trades = d } }
  on_large trade (d, some ev) t =
      let e = t.engine in
      push_event ev (record t {
        engine = record e {
          large_trades = d;
          large_trade_count = add64 e.large_trade_count 1;
          flow = record_large_trade trade.price_ticks e.flow;
          heatmap = on_large_trade trade e.heatmap;
        };
      })

  -- `if let Some(price) = ev.price`, for the heatmap.
  abbrev pub at_price : Option ℕ → (ℕ → Heatmap → Heatmap) → Heatmap → Heatmap
  at_price none f h = h
  at_price (some price) f h = f price h

  abbrev pub on_swept : SweepDetector Float × Option AnalyticsEvent → Turn Float → Turn Float
  on_swept (d, none) t = record t { engine = record t.engine { sweeps = d } }
  on_swept (d, some ev) t =
      let e = t.engine in
      push_event ev (record t {
        engine = record e {
          sweeps = d;
          sweep_candidate_count = add64 e.sweep_candidate_count 1;
          heatmap = at_price ev.price (λ price. on_sweep price ev.ts_ms) e.heatmap;
        };
      })

  abbrev pub on_clustered :
      TradeEvent → ClusterTracker Float × Option (TradeCluster Float) → Turn Float → Turn Float
  on_clustered trade (tracker, none) t = record t {
    engine = record t.engine { clusters = tracker };
  }
  on_clustered trade (tracker, some c) t = on_swept (on_cluster fl c t.engine.sweeps) (
      push_event (cluster_event trade c)
        (record t { engine = record t.engine { clusters = tracker } }))

  abbrev pub on_absorbed :
      AbsorptionDetector Float × Option AnalyticsEvent → Turn Float → Turn Float
  on_absorbed (d, none) t = record t { engine = record t.engine { absorption = d } }
  on_absorbed (d, some ev) t =
      let e = t.engine in
      push_event ev (record t {
        engine = record e {
          absorption = d;
          absorption_candidate_count = add64 e.absorption_candidate_count 1;
          heatmap = at_price ev.price (λ price. on_absorption price ev.ts_ms) e.heatmap;
        };
      })

  -- The best price and the liquidity that the absorption detector is given.
  abbrev pub context : AggressorSide → (depth : ℕ) → ShadowBook → Option ℕ × ℕ
  context buy depth b = (best_bid b, (depth_volume depth b).1)
  context sell depth b = (best_ask b, (depth_volume depth b).0)

  abbrev pub absorb_at : TradeEvent → Option ℕ × ℕ → Turn Float → Turn Float
  absorb_at trade (none, opposing) t = t
  absorb_at trade (some best, opposing) t =
      on_absorbed (Absorption.on_trade fl trade best opposing t.engine.absorption) t

  unfoldable pub absorb_trade : TradeEvent → Turn Float → Turn Float
  absorb_trade trade t =
      let b = t.engine.book in
      if b.ready && not (is_crossed b)
      then absorb_at trade (context trade.aggressor t.engine.cfg.imbalance_depth b) t
      else t

  unfoldable pub on_trade : TradeEvent → Turn Float → Turn Float
  on_trade trade t =
      let counted =
        push_event (trade_event trade) (record t { engine = count_trade trade t.engine }) in
      let large = on_large trade (check trade counted.engine.large_trades) counted in
      let clustered = on_clustered trade (Clusters.on_trade fl trade large.engine.clusters) large in
      maybe_finalize_snapshot fl trade.trade_time (absorb_trade trade clustered)
