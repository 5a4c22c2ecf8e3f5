-- ===== src/Recording/Recorder.antt =====
-- src/recording/recorder.rs: the rows that the event loop records, and the bounded queue. The state
-- is what the recorder and the worker share. A send and the counters after it are one step.
use futures_orderbook.Prelude.{
  ℕ, ◌+◌, ◌-◌, min, String, List, [], ◌∷◌, ◌++◌, Bool, true, false, Option, none, some, ltb, leb,
  if◌then◌else◌, length, Result, ok, err,
}
use futures_orderbook.Prelude.Word.{u64_mod, add64}
use futures_orderbook.Level.Floats.{F64}
use futures_orderbook.Level.{price_str_to_ticks, quantity_str_to_ticks}
use futures_orderbook.Error.{AnyError}
use futures_orderbook.Binance.{DepthUpdate}
use futures_orderbook.Book.Defs.{Quote}
use futures_orderbook.Recording.Host.{Host, ms_to_datetime, ns_to_datetime}
use futures_orderbook.Recording.Rows.{
  RawEventRow, TradeRow, LevelChangeRow, SnapshotRow, Record, raw, trade, depth, snapshot,
}
use futures_orderbook.Recording.Metrics.{StorageHealth, RecorderMetrics, StorageState, queue_full}

pub record NewTrade : Type 0 where
  pub symbol : String
  pub trade_id : ℕ
  pub first_trade_id : Option ℕ
  pub last_trade_id : Option ℕ
  pub price : ℕ
  pub quantity : ℕ
  pub aggressor_side : String
  pub exchange_event_time_ms : ℕ
  pub trade_time_ms : ℕ
  pub local_receive_time_ns : ℕ
  pub order_type : String

-- `queue` is the content of the channel, and `closed` tells that its receiver is gone.
pub record Shared (Uuid DateTime : Type 0) : Type 0 where
  pub session_id : Uuid
  pub seq : ℕ
  pub queue : List (Record Uuid DateTime)
  pub closed : Bool
  pub capacity : ℕ
  pub metrics : RecorderMetrics
  pub health : StorageHealth
  pub queue_len : ℕ

module _ (host : Host) where
  open host use {Uuid, DateTime, to_json, byte_len}

  abbrev pub on_queue_overflow : Shared Uuid DateTime → Shared Uuid DateTime
  on_queue_overflow s = record s {
    health = record s.health {
      queue_overflows = add64 s.health.queue_overflows 1;
      degraded = true;
      state = StorageState.degraded;
      last_error = some (queue_full s.metrics.queue_capacity);
    };
  }

  -- The counters of a record that is in the queue.
  abbrev pub on_queued : Shared Uuid DateTime → Shared Uuid DateTime
  on_queued s =
      let depth = min (s.queue_len + 1) (u64_mod - 1) in
      let high_water =
        if ltb s.metrics.queue_high_water depth then depth else s.metrics.queue_high_water in
      record s {
        queue_len = add64 s.queue_len 1;
        metrics = record s.metrics { queue_high_water = high_water; queue_depth = depth };
      }

  unfoldable pub send : Record Uuid DateTime → Shared Uuid DateTime → Shared Uuid DateTime × Bool
  send r s =
      if s.closed
      then (s, false)
      else if leb s.capacity (length s.queue)
      then (on_queue_overflow s, false)
      else (on_queued (record s { queue = s.queue ++ r ∷ [] }), true)

  -- A record that is not sent is counted as dropped.
  unfoldable pub send_or_drop :
      (RecorderMetrics → RecorderMetrics)
      → Record Uuid DateTime
      → Shared Uuid DateTime
      → Shared Uuid DateTime
  send_or_drop dropped r s =
      let (sent, fits) = send r s in
      if fits then sent else record sent { metrics = dropped sent.metrics }

  -- `next_seq`, in place: the number is the field before the step.
  abbrev pub bump_seq : Shared Uuid DateTime → Shared Uuid DateTime
  bump_seq s = record s { seq = add64 s.seq 1 }

  unfoldable pub record_raw :
      (symbol stream_type payload : String) (exchange_event_ms : ℕ)
      (exchange_transaction_ms : Option ℕ) (local_receive_ns : ℕ)
      → Shared Uuid DateTime
      → Shared Uuid DateTime
  record_raw symbol stream_type payload event_ms transaction_ms local_ns s =
      let counted = record s {
        metrics = record s.metrics {
          raw_received = add64 s.metrics.raw_received 1;
          raw_bytes_received = add64 s.metrics.raw_bytes_received (byte_len payload);
        };
      } in
      let row : RawEventRow Uuid DateTime = record {
        session_id = s.session_id;
        seq = s.seq;
        symbol = symbol;
        stream_type = stream_type;
        exchange_event_time = ms_to_datetime host event_ms;
        exchange_transaction_time = elim transaction_ms [
          | none ↦ none
          | some ms ↦ some (ms_to_datetime host ms)
        ];
        local_receive_time = ns_to_datetime host local_ns;
        raw_payload = payload;
      } in
      send_or_drop (λ m. record m { raw_dropped = add64 m.raw_dropped 1 }) (raw row)
        (bump_seq counted)

  abbrev pub trade_row : NewTrade → Shared Uuid DateTime → TradeRow Uuid DateTime
  trade_row t s = record {
    session_id = s.session_id;
    seq = s.seq;
    symbol = t.symbol;
    trade_id = t.trade_id;
    first_trade_id = t.first_trade_id;
    last_trade_id = t.last_trade_id;
    price = t.price;
    quantity = t.quantity;
    aggressor_side = t.aggressor_side;
    exchange_event_time = ms_to_datetime host t.exchange_event_time_ms;
    trade_time = ms_to_datetime host t.trade_time_ms;
    local_receive_time = ns_to_datetime host t.local_receive_time_ns;
    order_type = t.order_type;
  }

  unfoldable pub record_trade : NewTrade → Shared Uuid DateTime → Shared Uuid DateTime
  record_trade t s =
      let counted = record s {
        metrics = record s.metrics { trades_received = add64 s.metrics.trades_received 1 };
      } in
      send_or_drop (λ m. record m { trades_dropped = add64 m.trades_dropped 1 })
        (trade (trade_row t s)) (bump_seq counted)

  -- `Ok` of both texts, or `continue`.
  abbrev pub both_read :
      {A : Type 0} → Result ℕ AnyError → Result ℕ AnyError → (ℕ → ℕ → A) → List A → List A
  both_read (ok price) (ok quantity) f rest = f price quantity ∷ rest
  both_read (ok price) (err e) f rest = rest
  both_read (err e) quantity f rest = rest

  module _ (fl : F64) where
    abbrev pub level_row :
        DepthUpdate
        → ℕ
        → Shared Uuid DateTime
        → String
        → (price quantity : ℕ) → LevelChangeRow Uuid DateTime
    level_row event local_ns s side price quantity = record {
      session_id = s.session_id;
      seq = s.seq;
      symbol = event.symbol;
      exchange_event_time = ms_to_datetime host event.event_time;
      exchange_transaction_time = ms_to_datetime host event.transaction_time;
      local_receive_time = ns_to_datetime host local_ns;
      first_update_id = event.first_update_id;
      final_update_id = event.final_update_id;
      previous_final_update_id = event.previous_final_update_id;
      side = side;
      price = price;
      quantity = quantity;
    }

    -- One of the two loops.
    unfoldable pub level_rows :
        DepthUpdate
        → ℕ
        → Shared Uuid DateTime
        → String
        → List Quote
        → List (LevelChangeRow Uuid DateTime)
    level_rows event local_ns s side [] = []
    level_rows event local_ns s side ((price_str, qty_str) ∷ quotes) =
        both_read (price_str_to_ticks fl price_str) (quantity_str_to_ticks fl qty_str)
          (level_row event local_ns s side) (level_rows event local_ns s side quotes)

    -- Nothing is sent if no level was read.
    abbrev pub send_rows :
        List (LevelChangeRow Uuid DateTime) → Shared Uuid DateTime → Shared Uuid DateTime
    send_rows [] s = s
    send_rows (r ∷ rows) s =
        send_or_drop (λ m. record m { depth_dropped = add64 m.depth_dropped 1 }) (depth (r ∷ rows))
          s

    unfoldable pub record_depth_event :
        DepthUpdate → ℕ → Shared Uuid DateTime → Shared Uuid DateTime
    record_depth_event event local_ns s =
        let counted = record s {
          metrics = record s.metrics {
            depth_events_received = add64 s.metrics.depth_events_received 1;
          };
        } in
        send_rows
          (level_rows event local_ns s "BID" event.bids
            ++ level_rows event local_ns s "ASK" event.asks)
          (bump_seq counted)

    abbrev pub read_pairs : List Quote → List (ℕ × ℕ)
    read_pairs [] = []
    read_pairs ((p, q) ∷ quotes) =
        both_read (price_str_to_ticks fl p) (quantity_str_to_ticks fl q) (λ price qty. (price, qty))
          (read_pairs quotes)

    unfoldable pub encode_levels : List Quote → String
    encode_levels levels = elim (to_json (read_pairs levels)) [ none ↦ "[]" | some text ↦ text ]

    unfoldable pub record_snapshot :
        String
        → (snapshot_update_id timestamp_ms : ℕ) → (bids asks : List Quote) → Shared Uuid DateTime
        → Shared Uuid DateTime
    record_snapshot symbol id timestamp_ms bids asks s =
        let row : SnapshotRow Uuid DateTime = record {
          session_id = s.session_id;
          seq = s.seq;
          symbol = symbol;
          snapshot_update_id = id;
          timestamp = ms_to_datetime host timestamp_ms;
          bids = encode_levels bids;
          asks = encode_levels asks;
        } in
        (send (snapshot row) (bump_seq s)).0

  unfoldable pub record_marker_rejected : Shared Uuid DateTime → Shared Uuid DateTime
  record_marker_rejected s = record s {
    metrics = record s.metrics { marker_rejected = add64 s.metrics.marker_rejected 1 };
  }

  unfoldable pub record_invalid_rejected : Shared Uuid DateTime → Shared Uuid DateTime
  record_invalid_rejected s = record s {
    metrics = record s.metrics { invalid_rejected = add64 s.metrics.invalid_rejected 1 };
  }
