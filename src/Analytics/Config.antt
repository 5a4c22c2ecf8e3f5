-- ===== src/Analytics/Config.antt =====
-- src/analytics/config.rs: the thresholds of the analytics.
use futures_orderbook.Prelude.{ℕ, ◌*◌, ◌/◌, ◌-◌, min, String, List, [], ◌∷◌, Result, ok, err}
use futures_orderbook.Prelude.Word.{u64_mod}
use futures_orderbook.Error.{AnyError}
use futures_orderbook.Level.{tick_scale, price_str_to_ticks, quantity_str_to_ticks}
use futures_orderbook.Level.Floats.{F64}

abbrev pub default_analytics_version : String
default_analytics_version = "phase4-v1"

abbrev pub default_aggregation_intervals_ms : List ℕ
default_aggregation_intervals_ms = 100 ∷ 1000 ∷ 5000 ∷ 60_000 ∷ []

abbrev pub default_tick_size_str : String
default_tick_size_str = "0.10"

abbrev pub default_retention_ms : ℕ
default_retention_ms = 900_000

pub record AnalyticsConfig (Float : Type 0) : Type 0 where
  pub analytics_version : String
  pub tick_size_ticks : ℕ
  pub large_trade_min_quantity_ticks : ℕ
  pub sweep_window_ms : ℕ
  pub sweep_min_levels : ℕ
  pub sweep_min_volume_ticks : ℕ
  pub absorption_window_ms : ℕ
  pub absorption_min_volume_ticks : ℕ
  pub absorption_min_trades : ℕ
  pub absorption_max_excursion_ticks : ℕ
  pub replenishment_window_ms : ℕ
  pub imbalance_depth : ℕ
  pub snapshot_interval_ms : ℕ
  pub aggregation_intervals_ms : List ℕ
  pub heatmap_cell_ms : ℕ
  pub retention_ms : ℕ
  pub cluster_window_ms : ℕ
  pub cluster_price_range_ticks : ℕ
  pub confidence_threshold : Float
  pub heatmap_price_aggregation : ℕ
  pub heatmap_time_intervals : List ℕ
  pub max_heatmap_price_levels : ℕ

unfoldable pub absorption_max_excursion_raw : {Float : Type 0} → AnalyticsConfig Float → ℕ
absorption_max_excursion_raw c =
    min (c.absorption_max_excursion_ticks * c.tick_size_ticks) (u64_mod - 1)

module _ (fl : F64) where
  open fl use {Float, of_u64, to_u64, mul, round, greater, clamp, lit}

  unfoldable pub btc_str_to_ticks : String → Result ℕ AnyError
  btc_str_to_ticks s = quantity_str_to_ticks fl s

  unfoldable pub btc_to_ticks : Float → ℕ
  btc_to_ticks btc = to_u64 (greater (round (mul btc (of_u64 tick_scale))) (lit "0.0"))

  unfoldable pub clamp_score : Float → Float
  clamp_score value = clamp value (lit "0.0") (lit "1.0")

  abbrev unwrap_or : ℕ → Result ℕ AnyError → ℕ
  unwrap_or n (ok m) = m
  unwrap_or n (err e) = n

  unfoldable pub btcusdt_default : AnalyticsConfig Float
  btcusdt_default = record {
    analytics_version = default_analytics_version;
    tick_size_ticks = unwrap_or (tick_scale / 10) (price_str_to_ticks fl default_tick_size_str);
    large_trade_min_quantity_ticks = btc_to_ticks (lit "5.0");
    sweep_window_ms = 100;
    sweep_min_levels = 3;
    sweep_min_volume_ticks = btc_to_ticks (lit "5.0");
    absorption_window_ms = 1000;
    absorption_min_volume_ticks = btc_to_ticks (lit "20.0");
    absorption_min_trades = 5;
    absorption_max_excursion_ticks = 3;
    replenishment_window_ms = 250;
    imbalance_depth = 10;
    snapshot_interval_ms = 1000;
    aggregation_intervals_ms = default_aggregation_intervals_ms;
    heatmap_cell_ms = 1000;
    retention_ms = default_retention_ms;
    cluster_window_ms = 100;
    cluster_price_range_ticks = 3;
    confidence_threshold = lit "0.5";
    heatmap_price_aggregation = 1;
    heatmap_time_intervals = 100 ∷ 250 ∷ 500 ∷ 1000 ∷ 2000 ∷ 5000 ∷ 10_000 ∷ 30_000 ∷ 60_000 ∷ [];
    max_heatmap_price_levels = 10_000;
  }
