-- ===== src/Analytics/Sweeps.antt =====
-- src/analytics/sweeps.rs: clusters that cross several levels in a short time.
use futures_orderbook.Prelude.{
  ℕ, ◌-◌, Bool, not, ◌||◌, Option, none, some, ◌==◌, ltb, if◌then◌else◌,
}
use futures_orderbook.Prelude.Word.{add64}
use futures_orderbook.Level.Floats.{F64}
use futures_orderbook.Trades.Trade.{AggressorSide, buy, sell, label}
use futures_orderbook.Analytics.Clusters.{TradeCluster, duration_ms}
use futures_orderbook.Analytics.Config.{AnalyticsConfig, clamp_score}
use futures_orderbook.Analytics.Derived
use futures_orderbook.Analytics.Derived.{
  AnalyticsEvent, sweep_candidate, of_sweep, with_side, with_price, with_quantity, with_detail,
}

pub record SweepCandidate (Float : Type 0) : Type 0 where
  pub side : AggressorSide
  pub start_ms : ℕ
  pub end_ms : ℕ
  pub levels_crossed : ℕ
  pub volume : ℕ
  pub price_displacement_ticks : ℕ
  pub first_price : ℕ
  pub last_price : ℕ
  pub duration_ms : ℕ
  pub confidence : Float

pub record SweepDetector (Float : Type 0) : Type 0 where
  pub cfg : AnalyticsConfig Float
  pub count : ℕ

abbrev pub displacement : AggressorSide → (first last : ℕ) → ℕ
displacement buy first last = last - first
displacement sell first last = first - last

module _ (fl : F64) where
  open fl use {Float, of_u64, mul, div, add, lt, lit, json}

  unfoldable pub new : AnalyticsConfig Float → SweepDetector Float
  new cfg = record { cfg = cfg; count = 0 }

  -- The five tests before the score.
  unfoldable pub rejected : AnalyticsConfig Float → TradeCluster Float → Bool
  rejected cfg c =
      ltb cfg.sweep_window_ms (duration_ms c)
      || ltb c.levels_crossed cfg.sweep_min_levels
      || not c.monotonic
      || ltb c.total_volume cfg.sweep_min_volume_ticks
      || lt c.aggressor_dominance (lit "0.5")

  abbrev time_score : AnalyticsConfig Float → (duration : ℕ) → Float
  time_score cfg duration =
      if duration == 0
      then lit "1.0"
      else clamp_score fl (div (of_u64 cfg.sweep_window_ms) (of_u64 duration))

  unfoldable pub confidence : AnalyticsConfig Float → TradeCluster Float → Float
  confidence cfg c =
      let level_score =
        clamp_score fl (div (of_u64 c.levels_crossed) (of_u64 cfg.sweep_min_levels)) in
      let volume_score =
        clamp_score fl (div (of_u64 c.total_volume) (of_u64 cfg.sweep_min_volume_ticks)) in
      add
        (add (add (mul (lit "0.35") level_score) (mul (lit "0.30") volume_score))
          (mul (lit "0.20") c.aggressor_dominance))
        (mul (lit "0.15") (time_score cfg (duration_ms c)))

  unfoldable pub event_of : AnalyticsConfig Float → TradeCluster Float → AnalyticsEvent
  event_of cfg c =
      let detail =
        of_sweep (json (confidence cfg c)) c.levels_crossed c.total_volume (duration_ms c)
          (displacement c.dominant_side c.first_price c.last_price) c.trade_count c.start_ms
          c.end_ms c.first_price c.last_price c.buy_volume c.sell_volume c.delta in
      with_detail detail (
        with_quantity c.total_volume (
          with_price c.last_price
            (with_side (label c.dominant_side) (Derived.new sweep_candidate c.end_ms "BTCUSDT"))))

  unfoldable pub on_cluster :
      TradeCluster Float → SweepDetector Float → SweepDetector Float × Option AnalyticsEvent
  on_cluster c d =
      if rejected d.cfg c
      then (d, none)
      else if lt (confidence d.cfg c) d.cfg.confidence_threshold
      then (d, none)
      else (record d { count = add64 d.count 1 }, some (event_of d.cfg c))

  abbrev pub candidate_of : AnalyticsConfig Float → TradeCluster Float → SweepCandidate Float
  candidate_of cfg c = record {
    side = c.dominant_side;
    start_ms = c.start_ms;
    end_ms = c.end_ms;
    levels_crossed = c.levels_crossed;
    volume = c.total_volume;
    price_displacement_ticks = displacement c.dominant_side c.first_price c.last_price;
    first_price = c.first_price;
    last_price = c.last_price;
    duration_ms = duration_ms c;
    confidence = confidence cfg c;
  }

  unfoldable pub candidate :
      TradeCluster Float → SweepDetector Float → Option (SweepCandidate Float)
  candidate c d =
      if rejected d.cfg c
      then none
      else if lt (confidence d.cfg c) d.cfg.confidence_threshold
      then none
      else some (candidate_of d.cfg c)
