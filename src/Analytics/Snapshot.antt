-- ===== src/Analytics/Snapshot.antt =====
-- src/analytics/snapshot.rs, and the reads that it takes from src/analytics/book.rs and flow.rs.
use futures_orderbook.Prelude.{
  ℕ, String, List, map, Bool, not, ◌||◌, Option, none, some, ◌==◌, if◌then◌else◌,
}
use futures_orderbook.Prelude.Word.{add64}
use futures_orderbook.Level.{tick_scale}
use futures_orderbook.Level.Floats.{F64}
use futures_orderbook.Analytics.Shadow.{ShadowBook, best_bid, best_ask, is_crossed, depth_volume}
use futures_orderbook.Analytics.Flow.{TradeFlow, trade_volume, delta}

pub record MarketMicrostructureSnapshot (Float : Type 0) : Type 0 where
  pub symbol : String
  pub timestamp_ms : ℕ
  pub analytics_version : String
  pub book_ready : Bool
  pub best_bid : Option ℕ
  pub best_ask : Option ℕ
  pub mid_price : Option Float
  pub spread_ticks : Option ℕ
  pub microprice_num : Option ℕ
  pub microprice_den : Option ℕ
  pub trade_volume : ℕ
  pub buy_volume : ℕ
  pub sell_volume : ℕ
  pub delta : ℕ
  pub cvd : ℕ
  pub bid_depth : ℕ
  pub ask_depth : ℕ
  pub book_imbalance : Option Float
  pub liquidity_added : ℕ
  pub liquidity_removed : ℕ
  pub large_trade_count : ℕ
  pub sweep_candidate_count : ℕ
  pub absorption_candidate_count : ℕ
  pub replenishment_count : ℕ
  pub book_crossed : Bool
  pub anomalies : ℕ

pub record AnalyticsFlowDigest : Type 0 where
  pub trade_count : ℕ
  pub trade_volume : ℕ
  pub buy_volume : ℕ
  pub sell_volume : ℕ
  pub delta : ℕ
  pub cvd : ℕ
  pub large_trade_count : ℕ
  pub sweep_candidate_count : ℕ
  pub absorption_candidate_count : ℕ
  pub replenishment_count : ℕ
  pub liquidity_added : ℕ
  pub liquidity_removed : ℕ
  -- Price, total, bought, sold and delta.
  pub volume_by_price : List (ℕ × ℕ × ℕ × ℕ × ℕ)

-- `TradeFlow::digest`. The map is in the order of its keys, so that the sort changes nothing.
unfoldable pub flow_digest : TradeFlow → AnalyticsFlowDigest
flow_digest f = record {
  trade_count = f.totals.trade_count;
  trade_volume = trade_volume f.totals;
  buy_volume = f.totals.buy_volume;
  sell_volume = f.totals.sell_volume;
  delta = delta f.totals;
  cvd = f.totals.cvd;
  large_trade_count = 0;
  sweep_candidate_count = 0;
  absorption_candidate_count = 0;
  replenishment_count = 0;
  liquidity_added = 0;
  liquidity_removed = 0;
  volume_by_price =
      map (λ (p, v). (p, v.total_volume, v.buy_volume, v.sell_volume, v.delta)) f.volume_by_price;
}

module _ (fl : F64) where
  open fl use {Float, of_u64, add, sub, div, lit}

  abbrev mid : Option ℕ → Option ℕ → Option Float
  mid (some b) (some a) =
      some (div (div (add (of_u64 b) (of_u64 a)) (lit "2.0")) (of_u64 tick_scale))
  mid none a = none
  mid (some b) none = none

  unfoldable pub mid_price_f64 : ShadowBook → Option Float
  mid_price_f64 b = if is_crossed b then none else mid (best_bid b) (best_ask b)

  unfoldable pub imbalance : (depth : ℕ) → ShadowBook → Option Float
  imbalance depth b =
      let (bids, asks) = depth_volume depth b in
      let total = add64 bids asks in
      if not b.ready || is_crossed b
      then none
      else if total == 0
      then none
      else some (div (sub (of_u64 bids) (of_u64 asks)) (of_u64 total))
