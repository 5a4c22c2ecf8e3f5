-- ===== src/Storage/Lane.antt =====
-- src/main.rs: the driver's arm for internal events, where an engine and a sink are there, and the
-- end of the analytics at shutdown. `detail_text` is the JSON text of an event's evidence.
use futures_orderbook.Prelude.{ℕ, String, List, [], ◌∷◌, Bool, Option, none, some}
use futures_orderbook.Recording.Host.{Host, ms_to_datetime}
use futures_orderbook.Level.Floats.{F64}
use futures_orderbook.Events.{MarketEvent}
use futures_orderbook.TreeMap.{TreeMap}
use futures_orderbook.Analytics.Flow.{VolumeAtPrice}
use futures_orderbook.Analytics.Derived.{Detail}
use futures_orderbook.Analytics.Snapshot.{MarketMicrostructureSnapshot}
use futures_orderbook.Analytics.Engine.{AnalyticsEngine, force_snapshot}
use futures_orderbook.Analytics.Engine.Process.{process_event}
use futures_orderbook.Storage.Analytics.{
  AnalyticsSnapshotRow, DeltaByPriceRow, cleared, from_snapshot, analytics_batch_from_output,
}
use futures_orderbook.Storage.Sink.{Table, Sink, submit, run_sink}

abbrev pub Lane : Host → F64 → Type 0
Lane host fl = AnalyticsEngine fl.Float × Sink host.Uuid host.DateTime fl.Float

module _ (host : Host) (fl : F64) (detail_text : Detail → String) (session_id : host.Uuid) where
  open host use {Uuid, DateTime}
  open fl use {Float}

  unfoldable pub on_event : MarketEvent Float → Lane host fl → Lane host fl
  on_event ev (engine, sink) =
      let (next, output) = process_event fl ev engine in
      (next, submit (analytics_batch_from_output host Float detail_text session_id output) sink)

  unfoldable pub on_events : List (MarketEvent Float) → Lane host fl → Lane host fl
  on_events [] lane = lane
  on_events (ev ∷ events) lane = on_events events (on_event ev lane)

  abbrev pub delta_row : ℕ → ℕ × VolumeAtPrice → DeltaByPriceRow Uuid DateTime
  delta_row ts (price, v) = record {
    session_id = session_id;
    symbol = "BTCUSDT";
    ts_ms = ms_to_datetime host ts;
    price = price;
    buy_volume = v.buy_volume;
    sell_volume = v.sell_volume;
    total_volume = v.total_volume;
    delta = v.delta;
    trade_count = v.trade_count;
    large_trade_count = v.large_trade_count;
  }

  abbrev pub delta_rows_of : ℕ → TreeMap VolumeAtPrice → List (DeltaByPriceRow Uuid DateTime)
  delta_rows_of ts [] = []
  delta_rows_of ts (entry ∷ m) = delta_row ts entry ∷ delta_rows_of ts m

  unfoldable pub delta_rows : AnalyticsEngine Float → List (DeltaByPriceRow Uuid DateTime)
  delta_rows e = elim e.last_event_ts [
    | none ↦ []
    | some ts ↦ delta_rows_of ts e.flow.volume_by_price
  ]

  abbrev pub row_of_some :
      Option (MarketMicrostructureSnapshot Float) → List (AnalyticsSnapshotRow Uuid DateTime Float)
  row_of_some none = []
  row_of_some (some snap) = from_snapshot host Float detail_text session_id snap ∷ []

  -- The last snapshot and the session's profile are submitted, and the worker runs to its end.
  unfoldable pub finish :
      (accepts : ℕ → Table → Bool) → (channel_capacity : ℕ) → Lane host fl → Lane host fl
  finish accepts channel_capacity (engine, sink) =
      let (last, final_snapshot) = force_snapshot fl engine in
      let batch = record cleared {
        snapshots = row_of_some final_snapshot;
        delta_by_price = delta_rows last;
      } in
      (last, run_sink accepts channel_capacity (submit batch sink))
