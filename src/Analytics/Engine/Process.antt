-- ===== src/Analytics/Engine/Process.antt =====
-- src/analytics/engine.rs: `process_event`, and the digests.
use futures_orderbook.Prelude.{ℕ, String, List, [], Bool, true, false, some}
use futures_orderbook.Prelude.Word.{add64}
use futures_orderbook.Level.Floats.{F64}
use futures_orderbook.Events.{
  MarketEvent, order_book_synchronized, order_book_snapshot, order_book_updated,
  order_book_resync_started, order_book_resync_completed, trade, connection_status_changed,
}
use futures_orderbook.Analytics.Shadow.{
  ShadowBook, LevelChange, apply_update, set_ready, unwrap_or_zero,
}
use futures_orderbook.Analytics.Flow
use futures_orderbook.Analytics.Flow.{TradeFlow, record_large_trade}
use futures_orderbook.Analytics.Liquidity
use futures_orderbook.Analytics.Liquidity.{LiquidityTracker, clear, reset_interval}
use futures_orderbook.Analytics.Clusters
use futures_orderbook.Analytics.Clusters.{
  TradeCluster, ClusterTracker, add_buy, add_sell, add_delta,
}
use futures_orderbook.Analytics.Heatmap
use futures_orderbook.Analytics.Heatmap.{
  Heatmap, on_large_trade, on_sweep, on_absorption, on_replenishment,
}
use futures_orderbook.Analytics.Heatmap.Digest.{HeatmapDigest, digest as heatmap_digest_of}
use futures_orderbook.Analytics.Snapshot.{AnalyticsFlowDigest, flow_digest}
use futures_orderbook.Analytics.Derived
use futures_orderbook.Analytics.Derived.{
  AnalyticsEvent, AnalyticsEventKind, trade_delta, liquidity_replenishment, cluster, book_anomaly,
  of_cluster, of_reason, with_side, with_price, with_quantity, with_detail,
}
use futures_orderbook.Analytics.Engine.{
  EngineOutput, AnalyticsEngine, Turn, push_event, maybe_finalize_snapshot,
}
use futures_orderbook.Analytics.Engine.Updates.{on_snapshot, on_changes, note_crossed}
use futures_orderbook.Analytics.Engine.Trading.{on_trade}

module _ (fl : F64) where
  open fl use {Float}

  unfoldable pub on_update :
      (symbol : String)
      → (update_id ts : ℕ) → ShadowBook × List LevelChange
      → Turn Float
      → Turn Float
  on_update symbol update_id ts (book, changes) t =
      let updated = record t {
        engine = record t.engine { last_event_ts = some ts; book = book };
      } in
      maybe_finalize_snapshot fl ts
        (note_crossed fl symbol update_id (on_changes fl ts changes updated))

  abbrev pub on_status : (symbol : String) → Bool → Turn Float → Turn Float
  on_status symbol true t = t
  on_status symbol false t =
      let e = t.engine in
      push_event
        (with_detail (of_reason "connection lost")
          (Derived.new book_anomaly (unwrap_or_zero e.last_event_ts) symbol))
        (record t { engine = record e { anomalies = add64 e.anomalies 1 } })

  unfoldable pub dispatch : MarketEvent Float → Turn Float → Turn Float
  dispatch (order_book_synchronized symbol id bids asks) t = record t {
    engine = record t.engine { book = set_ready true t.engine.book };
  }
  dispatch (order_book_snapshot symbol update_id bids asks) t =
      on_snapshot fl symbol update_id bids asks t
  dispatch (order_book_updated symbol update_id ts bid_changes ask_changes b a mid) t =
      on_update symbol update_id ts (apply_update bid_changes ask_changes update_id t.engine.book) t
  dispatch (order_book_resync_started symbol reason) t = record t {
    engine = record t.engine {
      book = set_ready false t.engine.book;
      liquidity = clear t.engine.liquidity;
    };
  }
  dispatch (order_book_resync_completed symbol id) t = t
  dispatch (trade event) t = on_trade fl event t
  dispatch (connection_status_changed symbol connected reconnects) t = on_status symbol connected t

  abbrev pub ts_of_ev : MarketEvent Float → AnalyticsEngine Float → ℕ
  ts_of_ev (trade event) e = event.trade_time
  ts_of_ev (order_book_updated symbol update_id ts bid_changes ask_changes b a mid) e = ts
  ts_of_ev _ e = unwrap_or_zero e.last_event_ts

  unfoldable pub prune : ℕ → AnalyticsEngine Float → AnalyticsEngine Float
  prune now_ms e = record e {
    heatmap = Heatmap.prune now_ms e.heatmap;
    clusters = Clusters.prune fl now_ms e.clusters;
    liquidity = Liquidity.prune now_ms e.liquidity;
    flow = Flow.prune now_ms e.flow;
  }

  unfoldable pub process_event :
      MarketEvent Float → AnalyticsEngine Float → AnalyticsEngine Float × EngineOutput Float
  process_event ev e =
      let t = dispatch ev (record { engine = e; out = record { events = []; snapshots = [] } }) in
      (prune (ts_of_ev ev t.engine) t.engine, t.out)

  unfoldable pub digest : AnalyticsEngine Float → AnalyticsFlowDigest
  digest e = record (flow_digest e.flow) {
    large_trade_count = e.large_trades.count;
    sweep_candidate_count = e.sweeps.count;
    absorption_candidate_count = e.absorption.count;
    replenishment_count = e.liquidity.replenishment_count;
    liquidity_added = e.liquidity.added_ticks;
    liquidity_removed = e.liquidity.removed_ticks;
  }

  unfoldable pub heatmap_digest : AnalyticsEngine Float → HeatmapDigest
  heatmap_digest e = heatmap_digest_of e.heatmap
