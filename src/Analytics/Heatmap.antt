-- ===== src/Analytics/Heatmap.antt =====
-- src/analytics/heatmap.rs: the grid of prices by time. The `i128` numbers are words. The width of
-- a cell is not zero (the source's `%` panics on zero).
pub mod Digest
pub mod Frame
pub mod Patch
pub mod Calls
pub mod Totals
pub mod Sums
pub mod Counted
pub mod Measures
pub mod Candidates
pub mod Agree
pub mod Shape
use futures_orderbook.Prelude.{
  ℕ, ◌+◌, ◌-◌, ◌/◌, ◌%◌, List, [], ◌∷◌, Bool, ◌||◌, Option, none, some, ◌==◌, ltb, leb,
  if◌then◌else◌,
}
use futures_orderbook.Prelude.Word.{add64, add128}
use futures_orderbook.TreeMap.{TreeMap, get, insert, remove}
use futures_orderbook.Trades.Trade.{TradeEvent}
use futures_orderbook.Analytics.Shadow.{BookSide, bid, ask, LevelChange}
use futures_orderbook.Analytics.Clusters.{add_buy, add_sell, add_delta}

pub record HeatmapCell : Type 0 where
  pub price : ℕ
  pub resting_bid_liquidity : ℕ
  pub resting_ask_liquidity : ℕ
  pub liquidity_added : ℕ
  pub liquidity_removed : ℕ
  pub executed_buy_volume : ℕ
  pub executed_sell_volume : ℕ
  pub delta : ℕ
  pub trade_count : ℕ
  pub large_trade_volume : ℕ
  pub replenishment_count : ℕ
  pub absorption_candidate_count : ℕ
  pub sweep_count : ℕ
  pub pressure : ℕ
  pub timestamp_bucket : Option ℕ

abbrev pub new_cell : ℕ → HeatmapCell
new_cell price = record {
  price = price;
  resting_bid_liquidity = 0;
  resting_ask_liquidity = 0;
  liquidity_added = 0;
  liquidity_removed = 0;
  executed_buy_volume = 0;
  executed_sell_volume = 0;
  delta = 0;
  trade_count = 0;
  large_trade_volume = 0;
  replenishment_count = 0;
  absorption_candidate_count = 0;
  sweep_count = 0;
  pressure = 0;
  timestamp_bucket = none;
}

abbrev pub total_executed_volume : HeatmapCell → ℕ
total_executed_volume c = add64 c.executed_buy_volume c.executed_sell_volume

unfoldable pub has_executed_volume : HeatmapCell → Bool
has_executed_volume c = ltb 0 c.trade_count

unfoldable pub has_resting_liquidity : HeatmapCell → Bool
has_resting_liquidity c = ltb 0 c.resting_bid_liquidity || ltb 0 c.resting_ask_liquidity

abbrev pub Grid : Type 0
Grid = TreeMap (TreeMap HeatmapCell)

pub record Heatmap : Type 0 where
  pub buckets : Grid
  pub cell_ms : ℕ
  pub retention_ms : ℕ
  pub price_aggregation : ℕ
  pub time_intervals : List ℕ

-- The arguments are the fields of the configuration that the source reads.
unfoldable pub new : (heatmap_cell_ms retention_ms : ℕ) → Heatmap
new cell_ms retention_ms = record {
  buckets = [];
  cell_ms = cell_ms;
  retention_ms = retention_ms;
  price_aggregation = 1;
  time_intervals = 100 ∷ 250 ∷ 500 ∷ 1000 ∷ 2000 ∷ 5000 ∷ 10000 ∷ 30000 ∷ 60000 ∷ [];
}

abbrev is_supported : ℕ → Bool
is_supported n = n == 1 || n == 5 || n == 10 || n == 25 || n == 50

unfoldable pub set_price_aggregation : ℕ → Heatmap → Heatmap
set_price_aggregation aggregation h = record h {
  price_aggregation = if is_supported aggregation then aggregation else 1;
}

unfoldable pub set_time_intervals : List ℕ → Heatmap → Heatmap
set_time_intervals intervals h = record h { time_intervals = intervals }

abbrev pub grid_price : ℕ → Heatmap → ℕ
grid_price price_ticks h =
    if h.price_aggregation == 1 then price_ticks else price_ticks / h.price_aggregation

unfoldable pub bucket_start : (timestamp_ms interval_ms : ℕ) → ℕ
bucket_start timestamp_ms interval_ms = timestamp_ms - timestamp_ms % interval_ms

-- `or_default` and `or_insert_with`
abbrev pub cells_or_new : Option (TreeMap HeatmapCell) → TreeMap HeatmapCell
cells_or_new none = []
cells_or_new (some cells) = cells

abbrev pub cell_or_new : ℕ → Option HeatmapCell → HeatmapCell
cell_or_new price none = new_cell price
cell_or_new price (some c) = c

-- What every feed does: the cell of the price and the time, assigned to both, is updated.
unfoldable pub on_cell : (HeatmapCell → HeatmapCell) → (price start : ℕ) → Grid → Grid
on_cell f price start buckets =
    let cells = cells_or_new (get start buckets) in
    let found = cell_or_new price (get price cells) in
    let cell = record found { timestamp_bucket = some start; price = price } in
    insert start (insert price (f cell) cells) buckets

unfoldable pub feed : (HeatmapCell → HeatmapCell) → (price_ticks ts : ℕ) → Heatmap → Heatmap
feed f price_ticks ts h = record h {
  buckets = on_cell f (grid_price price_ticks h) (ts - ts % h.cell_ms) h.buckets;
}

unfoldable pub add_trade : TradeEvent → HeatmapCell → HeatmapCell
add_trade trade c =
    let qty = trade.quantity_ticks in
    record c {
      trade_count = add64 c.trade_count 1;
      executed_buy_volume = add_buy trade.aggressor qty c.executed_buy_volume;
      executed_sell_volume = add_sell trade.aggressor qty c.executed_sell_volume;
      delta = add_delta trade.aggressor qty c.delta;
      pressure = add_delta trade.aggressor qty c.pressure;
    }

unfoldable pub on_trade : TradeEvent → Heatmap → Heatmap
on_trade trade h = feed (add_trade trade) trade.price_ticks trade.trade_time h

unfoldable pub add_large : TradeEvent → HeatmapCell → HeatmapCell
add_large trade c = record c {
  large_trade_volume = add64 c.large_trade_volume trade.quantity_ticks;
}

unfoldable pub on_large_trade : TradeEvent → Heatmap → Heatmap
on_large_trade trade h = feed (add_large trade) trade.price_ticks trade.trade_time h

-- The match on the side in `on_level_change`.
unfoldable pub set_resting : BookSide → ℕ → HeatmapCell → HeatmapCell
set_resting bid new c =
    let old = c.resting_bid_liquidity in
    if ltb old new
    then record c {
      liquidity_added = add64 c.liquidity_added (new - old);
      resting_bid_liquidity = new;
    }
    else if ltb new old
    then record c {
      liquidity_removed = add64 c.liquidity_removed (old - new);
      resting_bid_liquidity = new;
    }
    else c
set_resting ask new c =
    let old = c.resting_ask_liquidity in
    if ltb old new
    then record c {
      liquidity_added = add64 c.liquidity_added (new - old);
      resting_ask_liquidity = new;
    }
    else if ltb new old
    then record c {
      liquidity_removed = add64 c.liquidity_removed (old - new);
      resting_ask_liquidity = new;
    }
    else c

unfoldable pub on_level_change : LevelChange → ℕ → Heatmap → Heatmap
on_level_change change ts h = feed (set_resting change.side change.new_qty) change.price ts h

unfoldable pub count_sweep : HeatmapCell → HeatmapCell
count_sweep c = record c { sweep_count = add64 c.sweep_count 1 }

unfoldable pub count_absorption : HeatmapCell → HeatmapCell
count_absorption c = record c { absorption_candidate_count = add64 c.absorption_candidate_count 1 }

unfoldable pub count_replenishment : HeatmapCell → HeatmapCell
count_replenishment c = record c { replenishment_count = add64 c.replenishment_count 1 }

unfoldable pub on_sweep : (price_ticks ts : ℕ) → Heatmap → Heatmap
on_sweep price_ticks ts h = feed count_sweep price_ticks ts h

unfoldable pub on_absorption : (price_ticks ts : ℕ) → Heatmap → Heatmap
on_absorption price_ticks ts h = feed count_absorption price_ticks ts h

unfoldable pub on_replenishment : (price_ticks ts : ℕ) → Heatmap → Heatmap
on_replenishment price_ticks ts h = feed count_replenishment price_ticks ts h

-- The keys of the buckets before the cutoff, and their removal.
unfoldable pub stale_keys : ℕ → Grid → List ℕ
stale_keys cutoff [] = []
stale_keys cutoff ((ts, cells) ∷ m) =
    let rest = stale_keys cutoff m in if ltb ts cutoff then ts ∷ rest else rest

unfoldable pub remove_all : List ℕ → Grid → Grid
remove_all [] m = m
remove_all (ts ∷ stale) m = remove_all stale (remove ts m)

unfoldable pub prune : ℕ → Heatmap → Heatmap
prune now_ms h = record h {
  buckets = remove_all (stale_keys (now_ms - h.retention_ms) h.buckets) h.buckets;
}
