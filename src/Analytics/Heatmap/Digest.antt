-- ===== src/Analytics/Heatmap/Digest.antt =====
-- src/analytics/heatmap.rs: the reads of the grid, `digest`, `range_volume` and the counts.
use futures_orderbook.Prelude.{
  ℕ, ◌-◌, [], ◌∷◌, not, ◌&&◌, Option, none, some, ltb, leb, if◌then◌else◌, length,
}
use futures_orderbook.Prelude.Word.{add64, add128}
use futures_orderbook.TreeMap.{TreeMap}
use futures_orderbook.Analytics.Heatmap.{HeatmapCell, Grid, Heatmap, total_executed_volume}

pub record HeatmapDigest : Type 0 where
  pub total_buckets : ℕ
  pub total_price_levels : ℕ
  pub total_executed_buy : ℕ
  pub total_executed_sell : ℕ
  pub total_delta : ℕ
  pub total_trade_count : ℕ
  pub total_liquidity_added : ℕ
  pub total_liquidity_removed : ℕ
  pub total_resting_bid : ℕ
  pub total_resting_ask : ℕ
  pub total_large_trade_volume : ℕ
  pub total_replenishment_count : ℕ
  pub total_absorption_candidate_count : ℕ
  pub total_sweep_count : ℕ
  pub total_pressure : ℕ

abbrev pub zero_digest : HeatmapDigest
zero_digest = record {
  total_buckets = 0;
  total_price_levels = 0;
  total_executed_buy = 0;
  total_executed_sell = 0;
  total_delta = 0;
  total_trade_count = 0;
  total_liquidity_added = 0;
  total_liquidity_removed = 0;
  total_resting_bid = 0;
  total_resting_ask = 0;
  total_large_trade_volume = 0;
  total_replenishment_count = 0;
  total_absorption_candidate_count = 0;
  total_sweep_count = 0;
  total_pressure = 0;
}

-- The body of the inner loop.
abbrev pub digest_cell : HeatmapCell → HeatmapDigest → HeatmapDigest
digest_cell c d = record d {
  total_price_levels = add64 d.total_price_levels 1;
  total_executed_buy = add64 d.total_executed_buy c.executed_buy_volume;
  total_executed_sell = add64 d.total_executed_sell c.executed_sell_volume;
  total_delta = add128 d.total_delta c.delta;
  total_trade_count = add64 d.total_trade_count c.trade_count;
  total_liquidity_added = add64 d.total_liquidity_added c.liquidity_added;
  total_liquidity_removed = add64 d.total_liquidity_removed c.liquidity_removed;
  total_resting_bid = add64 d.total_resting_bid c.resting_bid_liquidity;
  total_resting_ask = add64 d.total_resting_ask c.resting_ask_liquidity;
  total_large_trade_volume = add64 d.total_large_trade_volume c.large_trade_volume;
  total_replenishment_count = add64 d.total_replenishment_count c.replenishment_count;
  total_absorption_candidate_count =
      add64 d.total_absorption_candidate_count c.absorption_candidate_count;
  total_sweep_count = add64 d.total_sweep_count c.sweep_count;
  total_pressure = add128 d.total_pressure c.pressure;
}

unfoldable pub digest_cells : TreeMap HeatmapCell → HeatmapDigest → HeatmapDigest
digest_cells [] d = d
digest_cells ((price, cell) ∷ cells) d = digest_cells cells (digest_cell cell d)

unfoldable pub digest_buckets : Grid → HeatmapDigest → HeatmapDigest
digest_buckets [] d = d
digest_buckets ((start, cells) ∷ m) d =
    digest_buckets m (digest_cells cells (record d { total_buckets = add64 d.total_buckets 1 }))

unfoldable pub digest : Heatmap → HeatmapDigest
digest h = digest_buckets h.buckets zero_digest

unfoldable pub bucket_count : Heatmap → ℕ
bucket_count h = length h.buckets

abbrev count_cells : Grid → ℕ
count_cells [] = 0
count_cells ((start, cells) ∷ m) = add64 (length cells) (count_cells m)

unfoldable pub cell_count : Heatmap → ℕ
cell_count h = count_cells h.buckets

pub record Volume : Type 0 where
  pub bought : ℕ
  pub sold : ℕ
  pub total : ℕ
  pub delta : ℕ

abbrev add_in_range : (lo hi : ℕ) → TreeMap HeatmapCell → Volume → Volume
add_in_range lo hi [] v = v
add_in_range lo hi ((price, c) ∷ cells) v =
    let here : Volume = record {
      bought = add64 v.bought c.executed_buy_volume;
      sold = add64 v.sold c.executed_sell_volume;
      total = add64 v.total (total_executed_volume c);
      delta = add128 v.delta c.delta;
    } in
    add_in_range lo hi cells (if leb lo price && leb price hi then here else v)

-- `none` is the panic of `BTreeMap::range` on a range whose start is after its end.
abbrev sum_range : (lo hi cutoff : ℕ) → Grid → Volume → Option Volume
sum_range lo hi cutoff [] v = some v
sum_range lo hi cutoff ((start, cells) ∷ m) v =
    let stale = ltb start cutoff in
    let rest = sum_range lo hi cutoff m (if stale then v else add_in_range lo hi cells v) in
    if not stale && ltb hi lo then none else rest

unfoldable pub range_volume : (lo hi now_ms window_ms : ℕ) → Heatmap → Option Volume
range_volume lo hi now_ms window_ms h =
    sum_range lo hi (now_ms - window_ms) h.buckets
      (record { bought = 0; sold = 0; total = 0; delta = 0 })
