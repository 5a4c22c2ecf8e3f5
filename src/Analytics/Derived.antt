-- ===== src/Analytics/Derived.antt =====
-- src/analytics/events.rs: the events that the analytics derive. The JSON value `detail` is kept as
-- what it is built from; the confidence in it is a JSON number.
use futures_orderbook.Prelude.{ℕ, String, Bool, Option, none, some}

pub data AnalyticsEventKind : Type 0 where
  trade_delta large_trade liquidity_added liquidity_removed : AnalyticsEventKind
  liquidity_increased liquidity_decreased liquidity_replenishment : AnalyticsEventKind
  sweep_candidate absorption_candidate cluster book_anomaly : AnalyticsEventKind

unfoldable pub as_str : AnalyticsEventKind → String
as_str trade_delta = "trade_delta"
as_str large_trade = "large_trade"
as_str liquidity_added = "liquidity_added"
as_str liquidity_removed = "liquidity_removed"
as_str liquidity_increased = "liquidity_increased"
as_str liquidity_decreased = "liquidity_decreased"
as_str liquidity_replenishment = "liquidity_replenishment"
as_str sweep_candidate = "sweep_candidate"
as_str absorption_candidate = "absorption_candidate"
as_str cluster = "cluster"
as_str book_anomaly = "book_anomaly"

pub data Detail : Type 0 where
  null : Detail
  of_large_trade : (trade_id notional_ticks threshold_ticks : ℕ) → Detail
  of_cluster :
      (start_ms end_ms levels_crossed trade_count buy_volume sell_volume delta : ℕ)
      → (monotonic : Bool) → Detail
  of_sweep :
      (confidence : String)
      → (levels_crossed volume_ticks duration_ms price_displacement_ticks trade_count : ℕ)
      → (start_ms end_ms first_price last_price buy_volume sell_volume delta : ℕ) → Detail
  of_absorption :
      (confidence : String)
      → (trade_count aggressive_volume_ticks max_favorable_displacement_ticks : ℕ)
      → (reference_price window_open_ms window_close_ms : ℕ)
      → (opposing_liquidity_open opposing_liquidity_close replenished_volume_ticks : ℕ) → Detail
  of_reason : (reason : String) → Detail

pub record AnalyticsEvent : Type 0 where
  pub symbol : String
  pub ts_ms : ℕ
  pub kind : AnalyticsEventKind
  pub side : Option String
  pub price : Option ℕ
  pub quantity : ℕ
  pub detail : Detail

abbrev pub new : AnalyticsEventKind → ℕ → String → AnalyticsEvent
new kind ts_ms symbol = record {
  symbol = symbol;
  ts_ms = ts_ms;
  kind = kind;
  side = none;
  price = none;
  quantity = 0;
  detail = null;
}

abbrev pub with_side : String → AnalyticsEvent → AnalyticsEvent
with_side side e = record e { side = some side }

abbrev pub with_price : ℕ → AnalyticsEvent → AnalyticsEvent
with_price price e = record e { price = some price }

abbrev pub with_quantity : ℕ → AnalyticsEvent → AnalyticsEvent
with_quantity quantity e = record e { quantity = quantity }

abbrev pub with_detail : Detail → AnalyticsEvent → AnalyticsEvent
with_detail detail e = record e { detail = detail }
