-- ===== src/Storage/Analytics.antt =====
-- src/storage/analytics.rs: the rows and batches of the analytics; and the batch that the driver
-- makes of an engine's output (src/main.rs). `detail_text` is the JSON text of an event's evidence.
use futures_orderbook.Prelude.{
  ℕ, String, List, [], ◌∷◌, ◌++◌, map, Bool, true, false, ◌&&◌, Option, none, some,
}
use futures_orderbook.Recording.Host.{Host, ms_to_datetime}
use futures_orderbook.Analytics.Snapshot.{MarketMicrostructureSnapshot}
use futures_orderbook.Analytics.Shadow.{unwrap_or_zero}
use futures_orderbook.Analytics.Derived.{
  AnalyticsEvent, AnalyticsEventKind, trade_delta, cluster, liquidity_added, liquidity_removed,
  liquidity_increased, liquidity_decreased, liquidity_replenishment, Detail, as_str,
}
use futures_orderbook.Analytics.Engine.{EngineOutput, is_replenishment}

pub record AnalyticsSnapshotRow (Uuid DateTime Float : Type 0) : Type 0 where
  pub session_id : Uuid
  pub symbol : String
  pub timestamp_ms : DateTime
  pub analytics_version : String
  pub book_ready : Bool
  pub best_bid : Option ℕ
  pub best_ask : Option ℕ
  pub mid_price : Option Float
  pub spread_ticks : Option ℕ
  pub microprice_num : Option ℕ
  pub microprice_den : Option ℕ
  pub trade_volume : ℕ
  pub buy_volume : ℕ
  pub sell_volume : ℕ
  pub delta : ℕ
  pub cvd : ℕ
  pub bid_depth : ℕ
  pub ask_depth : ℕ
  pub book_imbalance : Option Float
  pub liquidity_added : ℕ
  pub liquidity_removed : ℕ
  pub large_trade_count : ℕ
  pub sweep_candidate_count : ℕ
  pub absorption_candidate_count : ℕ
  pub replenishment_count : ℕ
  pub book_crossed : Bool
  pub anomalies : ℕ

pub record AnalyticsEventRow (Uuid DateTime : Type 0) : Type 0 where
  pub session_id : Uuid
  pub symbol : String
  pub ts_ms : DateTime
  pub kind : String
  pub side : Option String
  pub price : Option ℕ
  pub quantity : ℕ
  pub detail : String

pub record DeltaByPriceRow (Uuid DateTime : Type 0) : Type 0 where
  pub session_id : Uuid
  pub symbol : String
  pub ts_ms : DateTime
  pub price : ℕ
  pub buy_volume : ℕ
  pub sell_volume : ℕ
  pub total_volume : ℕ
  pub delta : ℕ
  pub trade_count : ℕ
  pub large_trade_count : ℕ

pub record LiquidityEventRow (Uuid DateTime : Type 0) : Type 0 where
  pub session_id : Uuid
  pub symbol : String
  pub ts_ms : DateTime
  pub kind : String
  pub side : String
  pub price : ℕ
  pub quantity_delta : ℕ
  pub is_replenishment : Bool

pub record AnalyticsBatch (Uuid DateTime Float : Type 0) : Type 0 where
  pub snapshots : List (AnalyticsSnapshotRow Uuid DateTime Float)
  pub events : List (AnalyticsEventRow Uuid DateTime)
  pub delta_by_price : List (DeltaByPriceRow Uuid DateTime)
  pub liquidity_events : List (LiquidityEventRow Uuid DateTime)

abbrev pub is_nil : {A : Type 0} → List A → Bool
is_nil [] = true
is_nil (x ∷ xs) = false

module _ {Uuid DateTime Float : Type 0} where
  unfoldable pub is_empty : AnalyticsBatch Uuid DateTime Float → Bool
  is_empty b =
      is_nil b.snapshots && is_nil b.events && is_nil b.delta_by_price && is_nil b.liquidity_events

  abbrev pub cleared : AnalyticsBatch Uuid DateTime Float
  cleared = record { snapshots = []; events = []; delta_by_price = []; liquidity_events = [] }

-- The name of a kind that is a row of `liquidity_events`.
abbrev liquidity_kind : AnalyticsEventKind → Option String
liquidity_kind liquidity_added = some "added"
liquidity_kind liquidity_removed = some "removed"
liquidity_kind liquidity_increased = some "increased"
liquidity_kind liquidity_decreased = some "decreased"
liquidity_kind liquidity_replenishment = some "replenishment"
liquidity_kind _ = none

abbrev pub is_skipped : AnalyticsEventKind → Bool
is_skipped trade_delta = true
is_skipped cluster = true
is_skipped _ = false

abbrev unwrap_or_default : Option String → String
unwrap_or_default none = ""
unwrap_or_default (some s) = s

abbrev pub push_some : {A : Type 0} → Option A → List A → List A
push_some none xs = xs
push_some (some x) xs = xs ++ x ∷ []

module _ (host : Host) (Float : Type 0) (detail_text : Detail → String) where
  open host use {Uuid, DateTime}

  unfoldable pub from_snapshot :
      Uuid → MarketMicrostructureSnapshot Float → AnalyticsSnapshotRow Uuid DateTime Float
  from_snapshot session_id s = record {
    session_id = session_id;
    symbol = s.symbol;
    timestamp_ms = ms_to_datetime host s.timestamp_ms;
    analytics_version = s.analytics_version;
    book_ready = s.book_ready;
    best_bid = s.best_bid;
    best_ask = s.best_ask;
    mid_price = s.mid_price;
    spread_ticks = s.spread_ticks;
    microprice_num = s.microprice_num;
    microprice_den = s.microprice_den;
    trade_volume = s.trade_volume;
    buy_volume = s.buy_volume;
    sell_volume = s.sell_volume;
    delta = s.delta;
    cvd = s.cvd;
    bid_depth = s.bid_depth;
    ask_depth = s.ask_depth;
    book_imbalance = s.book_imbalance;
    liquidity_added = s.liquidity_added;
    liquidity_removed = s.liquidity_removed;
    large_trade_count = s.large_trade_count;
    sweep_candidate_count = s.sweep_candidate_count;
    absorption_candidate_count = s.absorption_candidate_count;
    replenishment_count = s.replenishment_count;
    book_crossed = s.book_crossed;
    anomalies = s.anomalies;
  }

  unfoldable pub from_event : Uuid → AnalyticsEvent → AnalyticsEventRow Uuid DateTime
  from_event session_id e = record {
    session_id = session_id;
    symbol = e.symbol;
    ts_ms = ms_to_datetime host e.ts_ms;
    kind = as_str e.kind;
    side = e.side;
    price = e.price;
    quantity = e.quantity;
    detail = detail_text e.detail;
  }

  unfoldable pub liquidity_row_from_event :
      Uuid → AnalyticsEvent → Option (LiquidityEventRow Uuid DateTime)
  liquidity_row_from_event session_id e = elim (liquidity_kind e.kind) [
    | none ↦ none
    | some kind ↦ some (record {
      session_id = session_id;
      symbol = e.symbol;
      ts_ms = ms_to_datetime host e.ts_ms;
      kind = kind;
      side = unwrap_or_default e.side;
      price = unwrap_or_zero e.price;
      quantity_delta = e.quantity;
      is_replenishment = is_replenishment e.kind;
    })
  ]

  -- A round of the loop over the events.
  abbrev pub add_event :
      Uuid
      → Bool
      → AnalyticsEvent
      → AnalyticsBatch Uuid DateTime Float
      → AnalyticsBatch Uuid DateTime Float
  add_event session_id true e b = b
  add_event session_id false e b = record b {
    events = b.events ++ from_event session_id e ∷ [];
    liquidity_events = push_some (liquidity_row_from_event session_id e) b.liquidity_events;
  }

  unfoldable pub add_events :
      Uuid
      → List AnalyticsEvent
      → AnalyticsBatch Uuid DateTime Float
      → AnalyticsBatch Uuid DateTime Float
  add_events session_id [] b = b
  add_events session_id (e ∷ events) b =
      add_events session_id events (add_event session_id (is_skipped e.kind) e b)

  unfoldable pub analytics_batch_from_output :
      Uuid → EngineOutput Float → AnalyticsBatch Uuid DateTime Float
  analytics_batch_from_output session_id out =
      add_events session_id out.events
        (record cleared { snapshots = map (from_snapshot session_id) out.snapshots })
