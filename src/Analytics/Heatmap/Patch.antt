-- ===== src/Analytics/Heatmap/Patch.antt =====
-- src/analytics/heatmap.rs: `HeatmapDelta`, what changed between two frames. A difference of the
-- summaries stops at 0 but for the delta, which wraps.
pub mod Applied
use futures_orderbook.Prelude.{ℕ, ◌-◌, List, [], ◌∷◌, Option, none, some, if◌then◌else◌}
use futures_orderbook.Prelude.Word.{sub128}
use futures_orderbook.TreeMap.{TreeMap, get, insert}
use futures_orderbook.Analytics.Heatmap.Frame.{
  HeatmapCellSnapshot, HeatmapFrame, HeatmapSummary, same_cell,
}

pub record HeatmapSummaryDelta : Type 0 where
  pub total_executed_buy : ℕ
  pub total_executed_sell : ℕ
  pub total_delta : ℕ
  pub total_trade_count : ℕ
  pub total_liquidity_added : ℕ
  pub total_liquidity_removed : ℕ
  pub total_large_trade_volume : ℕ
  pub total_replenishment_count : ℕ
  pub total_absorption_candidate_count : ℕ
  pub total_sweep_count : ℕ

-- The field `created` is `new`.
pub record HeatmapDelta : Type 0 where
  pub changed : List (ℕ × HeatmapCellSnapshot)
  pub created : List HeatmapCellSnapshot
  pub removed : List ℕ
  pub summary_delta : HeatmapSummaryDelta

-- `iter().map(|c| (c.price_tick, c)).collect()` into a map, where a later entry replaces an earlier.
unfoldable pub collect :
    List HeatmapCellSnapshot → TreeMap HeatmapCellSnapshot → TreeMap HeatmapCellSnapshot
collect [] m = m
collect (c ∷ cells) m = collect cells (insert c.price_tick c m)

unfoldable pub by_price : HeatmapFrame → TreeMap HeatmapCellSnapshot
by_price frame = collect frame.cells []

-- The two lists that the loop over the current cells pushes to, and that of the other loop.
abbrev push_changed :
    ℕ
    → HeatmapCellSnapshot
    → Option HeatmapCellSnapshot
    → List (ℕ × HeatmapCellSnapshot)
    → List (ℕ × HeatmapCellSnapshot)
push_changed price c none rest = rest
push_changed price c (some p) rest = if same_cell p c then rest else (price, c) ∷ rest

unfoldable pub changed_cells :
    TreeMap HeatmapCellSnapshot → TreeMap HeatmapCellSnapshot → List (ℕ × HeatmapCellSnapshot)
changed_cells prev [] = []
changed_cells prev ((price, c) ∷ curr) =
    push_changed price c (get price prev) (changed_cells prev curr)

abbrev push_created :
    HeatmapCellSnapshot
    → Option HeatmapCellSnapshot
    → List HeatmapCellSnapshot
    → List HeatmapCellSnapshot
push_created c none rest = c ∷ rest
push_created c (some p) rest = rest

unfoldable pub created_cells :
    TreeMap HeatmapCellSnapshot → TreeMap HeatmapCellSnapshot → List HeatmapCellSnapshot
created_cells prev [] = []
created_cells prev ((price, c) ∷ curr) = push_created c (get price prev) (created_cells prev curr)

abbrev push_removed : ℕ → Option HeatmapCellSnapshot → List ℕ → List ℕ
push_removed price none rest = price ∷ rest
push_removed price (some c) rest = rest

unfoldable pub removed_prices : TreeMap HeatmapCellSnapshot → TreeMap HeatmapCellSnapshot → List ℕ
removed_prices curr [] = []
removed_prices curr ((price, p) ∷ prev) =
    push_removed price (get price curr) (removed_prices curr prev)

unfoldable pub summary_change : HeatmapSummary → HeatmapSummary → HeatmapSummaryDelta
summary_change ps cs = record {
  total_executed_buy = cs.total_executed_buy - ps.total_executed_buy;
  total_executed_sell = cs.total_executed_sell - ps.total_executed_sell;
  total_delta = sub128 cs.total_delta ps.total_delta;
  total_trade_count = cs.total_trade_count - ps.total_trade_count;
  total_liquidity_added = cs.total_liquidity_added - ps.total_liquidity_added;
  total_liquidity_removed = cs.total_liquidity_removed - ps.total_liquidity_removed;
  total_large_trade_volume = cs.total_large_trade_volume - ps.total_large_trade_volume;
  total_replenishment_count = cs.total_replenishment_count - ps.total_replenishment_count;
  total_absorption_candidate_count =
      cs.total_absorption_candidate_count - ps.total_absorption_candidate_count;
  total_sweep_count = cs.total_sweep_count - ps.total_sweep_count;
}

unfoldable pub compute : HeatmapFrame → HeatmapFrame → HeatmapDelta
compute previous current =
    let prev_map = by_price previous in
    let curr_map = by_price current in
    record {
      changed = changed_cells prev_map curr_map;
      created = created_cells prev_map curr_map;
      removed = removed_prices curr_map prev_map;
      summary_delta = summary_change previous.summary current.summary;
    }
