-- ===== src/Engine/Trades.antt =====
-- The trade messages of the main loop (`cmd_record` in src/main.rs). `recorder` is there if the
-- session is recorded.
use futures_orderbook.Prelude.{
  ℕ, String, List, [], ◌∷◌, ◌++◌, Bool, true, false, Option, none, some,
}
use futures_orderbook.Level.Floats.{F64}
use futures_orderbook.Events
use futures_orderbook.Events.{MarketEvent}
use futures_orderbook.Trades.Trade.{TradeEvent, label}
use futures_orderbook.Trades.Normalizer.{
  FuturesTrade, NormalizeResult, normalized, marker_event, parse_error, normalize_trade,
}
use futures_orderbook.Trades.Processor
use futures_orderbook.Trades.Processor.{
  TradeProcessor, TradeProcessResult, processed, process, on_trade_reconnect, record_malformed,
}
use futures_orderbook.Recording.Host.{Host}
use futures_orderbook.Recording.Recorder.{
  NewTrade, Shared, record_raw, record_trade, record_marker_rejected, record_invalid_rejected,
}

pub record TradeLoop (host : Host) (Float : Type 0) : Type 0 where
  pub trade_proc : TradeProcessor
  pub trade_connected : Bool
  pub recorder : Option (Shared host.Uuid host.DateTime)
  pub sent : List (MarketEvent Float)

-- A message of the trade socket that changes something: `received` has the trade, its text, and the
-- nanoseconds of its arrival and of its normalisation.
pub data TradeMessage : Type 0 where
  connected disconnected : TradeMessage
  received : FuturesTrade → (raw : String) → (local_ns now_ns : ℕ) → TradeMessage

abbrev pub new_trade : TradeEvent → ℕ → NewTrade
new_trade event local_ns = record {
  symbol = event.symbol;
  trade_id = event.trade_id;
  first_trade_id = none;
  last_trade_id = none;
  price = event.price_ticks;
  quantity = event.quantity_ticks;
  aggressor_side = label event.aggressor;
  exchange_event_time_ms = event.event_time;
  trade_time_ms = event.trade_time;
  local_receive_time_ns = local_ns;
  order_type = event.order_type;
}

module _ (host : Host) (fl : F64) (symbol : String) where
  open host use {Uuid, DateTime}

  -- `if let Some(rec) = &recorder`
  abbrev with_recorder :
      (Shared Uuid DateTime → Shared Uuid DateTime)
      → TradeLoop host fl.Float
      → TradeLoop host fl.Float
  with_recorder f t = elim t.recorder [ none ↦ t | some rec ↦ record t { recorder = some (f rec) } ]

  abbrev on_processed :
      TradeEvent → ℕ → TradeProcessResult → TradeLoop host fl.Float → TradeLoop host fl.Float
  on_processed event local_ns processed t =
      let recorded = with_recorder (record_trade host (new_trade event local_ns)) t in
      record recorded { sent = recorded.sent ++ Events.trade event ∷ [] }
  on_processed event local_ns _ t = t

  -- The match on the result of `normalize_trade`.
  abbrev on_normalized : ℕ → NormalizeResult → TradeLoop host fl.Float → TradeLoop host fl.Float
  on_normalized local_ns (normalized event) t =
      let (p, result) = process event t.trade_proc in
      on_processed event local_ns result (record t { trade_proc = p })
  on_normalized local_ns (marker_event trade) t =
      let rejected = with_recorder (record_marker_rejected host) t in
      record rejected { trade_proc = Processor.record_marker_rejected rejected.trade_proc }
  on_normalized local_ns (parse_error field text e) t =
      let rejected = with_recorder (record_invalid_rejected host) t in
      record rejected { trade_proc = record_malformed rejected.trade_proc }

  unfoldable pub on_trade_message : TradeMessage → TradeLoop host fl.Float → TradeLoop host fl.Float
  on_trade_message connected t = record t { trade_connected = true }
  on_trade_message disconnected t = record t {
    trade_connected = false;
    trade_proc = on_trade_reconnect t.trade_proc;
  }
  on_trade_message (received trade raw local_ns now_ns) t =
      on_normalized local_ns (normalize_trade fl now_ns trade)
        (with_recorder (record_raw host symbol "trade" raw trade.event_time none local_ns) t)
