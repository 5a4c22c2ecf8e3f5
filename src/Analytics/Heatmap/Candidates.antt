-- ===== src/Analytics/Heatmap/Candidates.antt =====
-- What the calls other than `on_trade` add to the measures that are theirs.
use futures_orderbook.Prelude.{ℕ, ◌≡◌, arith}
use futures_orderbook.Prelude.Word.{u64_mod}
use futures_orderbook.Analytics.Shadow.{BookSide, bid, ask}
use futures_orderbook.Analytics.Heatmap.{
  HeatmapCell, add_trade, add_large, set_resting, count_sweep, count_absorption,
  count_replenishment,
}
use futures_orderbook.Analytics.Heatmap.Calls.{
  trade, large, level, sweep, absorption, replenishment, sweeps, absorptions, replenishments,
  large_volume,
}
use futures_orderbook.Analytics.Heatmap.Counted.{Adds}

large_trade_volume-level :
    (side : BookSide) (new : ℕ) (c : HeatmapCell)
    → (set_resting side new c).large_trade_volume ≡ c.large_trade_volume
unfolding set_resting
large_trade_volume-level bid new c = ground arith
large_trade_volume-level ask new c = ground arith

pub large_trade_volume-Adds : Adds u64_mod (λ c. c.large_trade_volume) large_volume
unfolding add_trade add_large count_sweep count_absorption count_replenishment
large_trade_volume-Adds (trade t) c w = omega arith
large_trade_volume-Adds (large t) c w = omega arith
large_trade_volume-Adds (level change ts) c w =
    omega (arith, large_trade_volume-level change.side change.new_qty c)
large_trade_volume-Adds (sweep price ts) c w = omega arith
large_trade_volume-Adds (absorption price ts) c w = omega arith
large_trade_volume-Adds (replenishment price ts) c w = omega arith

sweep_count-level :
    (side : BookSide) (new : ℕ) (c : HeatmapCell)
    → (set_resting side new c).sweep_count ≡ c.sweep_count
unfolding set_resting
sweep_count-level bid new c = ground arith
sweep_count-level ask new c = ground arith

pub sweep_count-Adds : Adds u64_mod (λ c. c.sweep_count) sweeps
unfolding add_trade add_large count_sweep count_absorption count_replenishment
sweep_count-Adds (trade t) c w = omega arith
sweep_count-Adds (large t) c w = omega arith
sweep_count-Adds (level change ts) c w =
    omega (arith, sweep_count-level change.side change.new_qty c)
sweep_count-Adds (sweep price ts) c w = omega arith
sweep_count-Adds (absorption price ts) c w = omega arith
sweep_count-Adds (replenishment price ts) c w = omega arith

absorption_candidate_count-level :
    (side : BookSide) (new : ℕ) (c : HeatmapCell)
    → (set_resting side new c).absorption_candidate_count ≡ c.absorption_candidate_count
unfolding set_resting
absorption_candidate_count-level bid new c = ground arith
absorption_candidate_count-level ask new c = ground arith

pub absorption_candidate_count-Adds : Adds u64_mod (λ c. c.absorption_candidate_count) absorptions
unfolding add_trade add_large count_sweep count_absorption count_replenishment
absorption_candidate_count-Adds (trade t) c w = omega arith
absorption_candidate_count-Adds (large t) c w = omega arith
absorption_candidate_count-Adds (level change ts) c w =
    omega (arith, absorption_candidate_count-level change.side change.new_qty c)
absorption_candidate_count-Adds (sweep price ts) c w = omega arith
absorption_candidate_count-Adds (absorption price ts) c w = omega arith
absorption_candidate_count-Adds (replenishment price ts) c w = omega arith

replenishment_count-level :
    (side : BookSide) (new : ℕ) (c : HeatmapCell)
    → (set_resting side new c).replenishment_count ≡ c.replenishment_count
unfolding set_resting
replenishment_count-level bid new c = ground arith
replenishment_count-level ask new c = ground arith

pub replenishment_count-Adds : Adds u64_mod (λ c. c.replenishment_count) replenishments
unfolding add_trade add_large count_sweep count_absorption count_replenishment
replenishment_count-Adds (trade t) c w = omega arith
replenishment_count-Adds (large t) c w = omega arith
replenishment_count-Adds (level change ts) c w =
    omega (arith, replenishment_count-level change.side change.new_qty c)
replenishment_count-Adds (sweep price ts) c w = omega arith
replenishment_count-Adds (absorption price ts) c w = omega arith
replenishment_count-Adds (replenishment price ts) c w = omega arith
