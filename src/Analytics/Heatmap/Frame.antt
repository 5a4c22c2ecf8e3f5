-- ===== src/Analytics/Heatmap/Frame.antt =====
-- src/analytics/heatmap.rs: `HeatmapFrame`, the view of the grid that a renderer is sent.
use futures_orderbook.Prelude.{
  ℕ, ◌-◌, List, [], ◌∷◌, ◌++◌, map, Bool, true, false, ◌&&◌, ◌||◌, ◌==◌, ltb, if◌then◌else◌, min,
  max,
}
use futures_orderbook.Prelude.Word.{add64, add128}
use futures_orderbook.TreeMap.{TreeMap}
use futures_orderbook.Analytics.Heatmap.{HeatmapCell, Grid, Heatmap}
use futures_orderbook.Analytics.Heatmap.Digest.{bucket_count}

pub record HeatmapCellSnapshot : Type 0 where
  pub price_tick : ℕ
  pub resting_bid_liquidity : ℕ
  pub resting_ask_liquidity : ℕ
  pub liquidity_added : ℕ
  pub liquidity_removed : ℕ
  pub executed_buy_volume : ℕ
  pub executed_sell_volume : ℕ
  pub delta : ℕ
  pub trade_count : ℕ
  pub large_trade_volume : ℕ
  pub replenishment_count : ℕ
  pub absorption_candidate_count : ℕ
  pub sweep_count : ℕ
  pub pressure : ℕ

unfoldable pub from_cell : HeatmapCell → ℕ → HeatmapCellSnapshot
from_cell c price = record {
  price_tick = price;
  resting_bid_liquidity = c.resting_bid_liquidity;
  resting_ask_liquidity = c.resting_ask_liquidity;
  liquidity_added = c.liquidity_added;
  liquidity_removed = c.liquidity_removed;
  executed_buy_volume = c.executed_buy_volume;
  executed_sell_volume = c.executed_sell_volume;
  delta = c.delta;
  trade_count = c.trade_count;
  large_trade_volume = c.large_trade_volume;
  replenishment_count = c.replenishment_count;
  absorption_candidate_count = c.absorption_candidate_count;
  sweep_count = c.sweep_count;
  pressure = c.pressure;
}

-- The derived `PartialEq`.
unfoldable pub same_cell : HeatmapCellSnapshot → HeatmapCellSnapshot → Bool
same_cell a b =
    a.price_tick == b.price_tick
    && a.resting_bid_liquidity == b.resting_bid_liquidity
    && a.resting_ask_liquidity == b.resting_ask_liquidity
    && a.liquidity_added == b.liquidity_added
    && a.liquidity_removed == b.liquidity_removed
    && a.executed_buy_volume == b.executed_buy_volume
    && a.executed_sell_volume == b.executed_sell_volume
    && a.delta == b.delta
    && a.trade_count == b.trade_count
    && a.large_trade_volume == b.large_trade_volume
    && a.replenishment_count == b.replenishment_count
    && a.absorption_candidate_count == b.absorption_candidate_count
    && a.sweep_count == b.sweep_count
    && a.pressure == b.pressure

pub record HeatmapSummary : Type 0 where
  pub total_price_levels : ℕ
  pub total_buckets : ℕ
  pub total_executed_buy : ℕ
  pub total_executed_sell : ℕ
  pub total_delta : ℕ
  pub total_trade_count : ℕ
  pub total_liquidity_added : ℕ
  pub total_liquidity_removed : ℕ
  pub total_large_trade_volume : ℕ
  pub total_replenishment_count : ℕ
  pub total_absorption_candidate_count : ℕ
  pub total_sweep_count : ℕ

pub record HeatmapFrame : Type 0 where
  pub timestamp : ℕ
  pub visible_price_range : ℕ × ℕ
  pub time_range : ℕ × ℕ
  pub cells : List HeatmapCellSnapshot
  pub summary : HeatmapSummary

-- The local variables of the loop.
pub record Scan : Type 0 where
  pub cells : List HeatmapCellSnapshot
  pub summary : HeatmapSummary
  pub min_price : ℕ
  pub max_price : ℕ

abbrev pub scan_summary : HeatmapCell → HeatmapSummary → HeatmapSummary
scan_summary c s = record s {
  total_executed_buy = add64 s.total_executed_buy c.executed_buy_volume;
  total_executed_sell = add64 s.total_executed_sell c.executed_sell_volume;
  total_delta = add128 s.total_delta c.delta;
  total_trade_count = add64 s.total_trade_count c.trade_count;
  total_liquidity_added = add64 s.total_liquidity_added c.liquidity_added;
  total_liquidity_removed = add64 s.total_liquidity_removed c.liquidity_removed;
  total_large_trade_volume = add64 s.total_large_trade_volume c.large_trade_volume;
  total_replenishment_count = add64 s.total_replenishment_count c.replenishment_count;
  total_absorption_candidate_count =
      add64 s.total_absorption_candidate_count c.absorption_candidate_count;
  total_sweep_count = add64 s.total_sweep_count c.sweep_count;
  total_price_levels = add64 s.total_price_levels 1;
}

abbrev pub scan_cell : (lo hi price : ℕ) → HeatmapCell → Scan → Scan
scan_cell lo hi price c s = if ltb price lo || ltb hi price then s else record {
  cells = s.cells ++ from_cell c price ∷ [];
  summary = scan_summary c s.summary;
  min_price = if ltb price s.min_price then price else s.min_price;
  max_price = if ltb s.max_price price then price else s.max_price;
}

unfoldable pub scan_cells : (lo hi : ℕ) → TreeMap HeatmapCell → Scan → Scan
scan_cells lo hi [] s = s
scan_cells lo hi ((price, c) ∷ cells) s = scan_cells lo hi cells (scan_cell lo hi price c s)

unfoldable pub scan_buckets : (lo hi : ℕ) → Grid → Scan → Scan
scan_buckets lo hi [] s = s
scan_buckets lo hi ((start, cells) ∷ g) s = scan_buckets lo hi g (scan_cells lo hi cells s)

abbrev is_empty : {A : Type 0} → List A → Bool
is_empty [] = true
is_empty (x ∷ xs) = false

-- `iter().min()` and `iter().max()` of a list that starts with `n`.
abbrev least : ℕ → List ℕ → ℕ
least n [] = n
least n (k ∷ ks) = least (min n k) ks

abbrev greatest : ℕ → List ℕ → ℕ
greatest n [] = n
greatest n (k ∷ ks) = greatest (max n k) ks

abbrev starts_range : (timestamp retention_ms : ℕ) → List ℕ → ℕ × ℕ
starts_range timestamp retention_ms [] = (timestamp - retention_ms, timestamp)
starts_range timestamp retention_ms (k ∷ ks) = (least k ks, greatest k ks)

abbrev pub zero_summary : HeatmapSummary
zero_summary = record {
  total_price_levels = 0;
  total_buckets = 0;
  total_executed_buy = 0;
  total_executed_sell = 0;
  total_delta = 0;
  total_trade_count = 0;
  total_liquidity_added = 0;
  total_liquidity_removed = 0;
  total_large_trade_volume = 0;
  total_replenishment_count = 0;
  total_absorption_candidate_count = 0;
  total_sweep_count = 0;
}

unfoldable pub from_heatmap : Heatmap → (timestamp visible_lo visible_hi : ℕ) → HeatmapFrame
from_heatmap h timestamp visible_lo visible_hi =
    let scan = scan_buckets visible_lo visible_hi h.buckets (record {
      cells = [];
      summary = zero_summary;
      min_price = visible_hi;
      max_price = visible_lo;
    }) in
    record {
      timestamp = timestamp;
      visible_price_range =
          if is_empty scan.cells
          then (visible_lo, visible_hi)
          else (scan.min_price, scan.max_price);
      time_range = starts_range timestamp h.retention_ms (map (λ e. e.0) h.buckets);
      cells = scan.cells;
      summary = record scan.summary { total_buckets = bucket_count h };
    }
