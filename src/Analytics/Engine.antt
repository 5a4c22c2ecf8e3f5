-- ===== src/Analytics/Engine.antt =====
-- src/analytics/engine.rs: the engine that feeds every market event to the parts of the analytics. A
-- turn is the engine and the output of the event in progress. The `i128` delta is a word.
pub mod Updates
pub mod Trading
pub mod Process
pub mod Ledger
pub mod Counted
pub mod Booked
pub mod Traded
pub mod History
pub mod Mirror
use futures_orderbook.Prelude.{
  ℕ, ◌-◌, max, String, List, [], ◌∷◌, ◌++◌, Bool, true, false, not, ◌&&◌, ◌||◌, Option, none, some,
  ltb, leb, if◌then◌else◌,
}
use futures_orderbook.Prelude.Word.{add64}
use futures_orderbook.Level.Floats.{F64}
use futures_orderbook.Events.{
  MarketEvent, order_book_synchronized, order_book_snapshot, order_book_updated,
  order_book_resync_started, order_book_resync_completed, trade, connection_status_changed,
}
use futures_orderbook.Trades.Trade.{AggressorSide, buy, sell, label, TradeEvent}
use futures_orderbook.Analytics.Shadow
use futures_orderbook.Analytics.Shadow.{
  ShadowBook, LevelChange, Microprice, apply_snapshot, apply_update, best_bid, best_ask, is_crossed,
  spread_ticks, depth_volume, microprice, set_ready, record_crossed, unwrap_or_zero,
}
use futures_orderbook.Analytics.Flow
use futures_orderbook.Analytics.Flow.{TradeFlow, record_large_trade}
use futures_orderbook.Analytics.Liquidity
use futures_orderbook.Analytics.Liquidity.{LiquidityTracker, clear, reset_interval}
use futures_orderbook.Analytics.LargeTrades
use futures_orderbook.Analytics.LargeTrades.{LargeTradeDetector, check}
use futures_orderbook.Analytics.Clusters
use futures_orderbook.Analytics.Clusters.{
  TradeCluster, ClusterTracker, add_buy, add_sell, add_delta,
}
use futures_orderbook.Analytics.Sweeps
use futures_orderbook.Analytics.Sweeps.{SweepDetector, on_cluster}
use futures_orderbook.Analytics.Absorption
use futures_orderbook.Analytics.Absorption.{
  AbsorptionDetector, on_liquidity_change, on_opposing_liquidity,
}
use futures_orderbook.Analytics.Heatmap
use futures_orderbook.Analytics.Heatmap.{
  Heatmap, on_large_trade, on_sweep, on_absorption, on_replenishment,
}
use futures_orderbook.Analytics.Heatmap.Digest.{HeatmapDigest, digest as heatmap_digest_of}
use futures_orderbook.Analytics.Config.{AnalyticsConfig}
use futures_orderbook.Analytics.Snapshot.{
  MarketMicrostructureSnapshot, AnalyticsFlowDigest, flow_digest, mid_price_f64, imbalance,
}
use futures_orderbook.Analytics.Derived
use futures_orderbook.Analytics.Derived.{
  AnalyticsEvent, AnalyticsEventKind, trade_delta, liquidity_replenishment, cluster, book_anomaly,
  of_cluster, of_reason, with_side, with_price, with_quantity, with_detail,
}

pub record EngineOutput (Float : Type 0) : Type 0 where
  pub events : List AnalyticsEvent
  pub snapshots : List (MarketMicrostructureSnapshot Float)

pub record AnalyticsEngine (Float : Type 0) : Type 0 where
  pub cfg : AnalyticsConfig Float
  pub book : ShadowBook
  pub flow : TradeFlow
  pub liquidity : LiquidityTracker
  pub large_trades : LargeTradeDetector
  pub clusters : ClusterTracker Float
  pub sweeps : SweepDetector Float
  pub absorption : AbsorptionDetector Float
  pub heatmap : Heatmap
  pub trade_volume : ℕ
  pub buy_volume : ℕ
  pub sell_volume : ℕ
  pub delta : ℕ
  pub large_trade_count : ℕ
  pub sweep_candidate_count : ℕ
  pub absorption_candidate_count : ℕ
  pub replenishment_count : ℕ
  pub anomalies : ℕ
  pub last_event_ts : Option ℕ
  pub last_snapshot_ts : Option ℕ
  pub book_crossed : Bool

pub record Turn (Float : Type 0) : Type 0 where
  pub engine : AnalyticsEngine Float
  pub out : EngineOutput Float

abbrev pub some_num : Option Microprice → Option ℕ
some_num none = none
some_num (some m) = some m.num

abbrev pub some_den : Option Microprice → Option ℕ
some_den none = none
some_den (some m) = some m.den

abbrev pub is_replenishment : AnalyticsEventKind → Bool
is_replenishment liquidity_replenishment = true
is_replenishment _ = false

-- `anomaly_event`; the update id stands where an event has its time.
abbrev pub anomaly_event : (update_id : ℕ) → (symbol reason : String) → AnalyticsEvent
anomaly_event update_id symbol reason =
    with_detail (of_reason reason) (Derived.new book_anomaly update_id symbol)

abbrev pub needs_snapshot : (interval ts : ℕ) → Option ℕ → Bool
needs_snapshot interval ts none = true
needs_snapshot interval ts (some last) = leb interval (ts - last)

module _ {Float : Type 0} where
  abbrev pub push_event : AnalyticsEvent → Turn Float → Turn Float
  push_event ev t = record t { out = record t.out { events = t.out.events ++ ev ∷ [] } }

  abbrev pub reset_counters : AnalyticsEngine Float → AnalyticsEngine Float
  reset_counters e = record e {
    trade_volume = 0;
    buy_volume = 0;
    sell_volume = 0;
    delta = 0;
    large_trade_count = 0;
    sweep_candidate_count = 0;
    absorption_candidate_count = 0;
    replenishment_count = 0;
    anomalies = 0;
    book_crossed = false;
    liquidity = reset_interval e.liquidity;
  }

  -- A crossed book is counted and reported.
  abbrev pub report_crossed : (update_id : ℕ) → (symbol reason : String) → Turn Float → Turn Float
  report_crossed update_id symbol reason t =
      let e = t.engine in
      push_event (anomaly_event update_id symbol reason) (record t {
        engine = record e { book = (record_crossed e.book).0; anomalies = add64 e.anomalies 1 };
      })

module _ (fl : F64) where
  open fl use {Float}

  unfoldable pub new : AnalyticsConfig Float → AnalyticsEngine Float
  new cfg = record {
    cfg = cfg;
    book = Shadow.new;
    flow = Flow.new cfg.aggregation_intervals_ms cfg.retention_ms;
    liquidity = Liquidity.new cfg.replenishment_window_ms cfg.retention_ms;
    large_trades = LargeTrades.new cfg.large_trade_min_quantity_ticks;
    clusters =
        Clusters.new cfg.cluster_window_ms cfg.cluster_price_range_ticks cfg.tick_size_ticks
          cfg.retention_ms;
    sweeps = Sweeps.new fl cfg;
    absorption = Absorption.new fl cfg;
    heatmap = Heatmap.new cfg.heatmap_cell_ms cfg.retention_ms;
    trade_volume = 0;
    buy_volume = 0;
    sell_volume = 0;
    delta = 0;
    large_trade_count = 0;
    sweep_candidate_count = 0;
    absorption_candidate_count = 0;
    replenishment_count = 0;
    anomalies = 0;
    last_event_ts = none;
    last_snapshot_ts = none;
    book_crossed = false;
  }

  abbrev pub snapshot_of : ℕ → AnalyticsEngine Float → MarketMicrostructureSnapshot Float
  snapshot_of ts e =
      let depths = depth_volume e.cfg.imbalance_depth e.book in
      record {
        symbol = "BTCUSDT";
        timestamp_ms = ts;
        analytics_version = e.cfg.analytics_version;
        book_ready = e.book.ready;
        best_bid = best_bid e.book;
        best_ask = best_ask e.book;
        mid_price = mid_price_f64 fl e.book;
        spread_ticks = spread_ticks e.book;
        microprice_num = some_num (microprice e.book);
        microprice_den = some_den (microprice e.book);
        trade_volume = e.trade_volume;
        buy_volume = e.buy_volume;
        sell_volume = e.sell_volume;
        delta = e.delta;
        cvd = e.flow.totals.cvd;
        bid_depth = depths.0;
        ask_depth = depths.1;
        book_imbalance = imbalance fl e.cfg.imbalance_depth e.book;
        liquidity_added = e.liquidity.added_ticks;
        liquidity_removed = e.liquidity.removed_ticks;
        large_trade_count = e.large_trade_count;
        sweep_candidate_count = e.sweep_candidate_count;
        absorption_candidate_count = e.absorption_candidate_count;
        replenishment_count = e.replenishment_count;
        book_crossed = e.book_crossed || is_crossed e.book;
        anomalies = e.anomalies;
      }

  unfoldable pub build_snapshot :
      ℕ → AnalyticsEngine Float → AnalyticsEngine Float × MarketMicrostructureSnapshot Float
  build_snapshot ts e = (reset_counters e, snapshot_of ts e)

  unfoldable pub maybe_finalize_snapshot : ℕ → Turn Float → Turn Float
  maybe_finalize_snapshot ts t =
      if needs_snapshot (max t.engine.cfg.snapshot_interval_ms 1) ts t.engine.last_snapshot_ts
      then (let (e, snap) = build_snapshot ts (record t.engine { last_snapshot_ts = some ts }) in
          record { engine = e; out = record t.out { snapshots = t.out.snapshots ++ snap ∷ [] } })
      else t

  unfoldable pub force_snapshot :
      AnalyticsEngine Float → AnalyticsEngine Float × Option (MarketMicrostructureSnapshot Float)
  force_snapshot e = elim e.last_event_ts [
    | none ↦ (e, none)
    | some ts ↦
        let (f, snap) = build_snapshot ts (record e { last_snapshot_ts = some ts }) in
        (f, some snap)
  ]
