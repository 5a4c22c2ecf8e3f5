-- ===== src/Examples/Recorders.antt =====
-- The recorder at a concrete history, with a plain instance of what it uses of other packages.
use futures_orderbook.Prelude.{
  ℕ, ◌/◌, List, [], ◌∷◌, ◌≡◌, refl, false, none, some, ltb, arith, if◌then◌else◌,
}
use futures_orderbook.Level.Whole.{whole}
use futures_orderbook.Recording.Host.{Host}
use futures_orderbook.Recording.Recorder.{NewTrade, send, send_or_drop, record_raw, record_trade}
use futures_orderbook.Recording.Worker.{Flush, RecordingConfig, Answers, System}
use futures_orderbook.Recording.Run.{
  Step, calls, receive, shutdown, raw_event, new_trade, depth_event, book_snapshot, step, run,
  start,
}
use futures_orderbook.Recording.Delivered.{Delivers, sent_all, run-Delivers}
use futures_orderbook.Recording.Emptied.{Accepts}
use futures_orderbook.Recording.Drained.{Stores, shutdown-Stores}
use futures_orderbook.Examples.Data.{quotes, ask_quotes, event}

abbrev pub plain : Host
plain = record {
  Uuid = ℕ;
  DateTime = ℕ × ℕ;
  from_timestamp = λ secs nanos. some (secs, nanos);
  timestamp = λ d. d.0;
  subsec_nanos = λ d. d.1;
  subsec_millis = λ d. d.1 / 1_000_000;
  epoch = (0, 0);
  to_json = λ pairs. some "[]";
  from_json = λ text. some [];
  byte_len = λ text. 10;
}

-- The first two attempts fail.
abbrev late : Answers
late attempt = if ltb attempt 2 then some "timeout" else none

abbrev down : Answers
down attempt = some "unavailable"

abbrev flush : Answers → Flush plain
flush answers = record {
  to_raw = answers;
  to_trades = answers;
  to_depth = answers;
  to_snapshot = answers;
  to_status = none;
  raw_ns = 5;
  trades_ns = 6;
  depth_ns = 7;
  snapshot_ns = 8;
}

abbrev sold : NewTrade
sold = record {
  symbol = "BTCUSDT";
  trade_id = 7;
  first_trade_id = none;
  last_trade_id = none;
  price = 500_000_000;
  quantity = 100_000_000;
  aggressor_side = "SELL";
  exchange_event_time_ms = 1000;
  trade_time_ms = 999;
  local_receive_time_ns = 1_000_000_000;
  order_type = "MARKET";
}

-- The queue holds two records, so that the snapshot does not fit.
abbrev pub config : RecordingConfig
config = record {
  batch_size = 1;
  flush_interval = 250;
  queue_capacity = 2;
  retry_attempts = 5;
  retry_backoff = 200;
}

abbrev steps : List (Step plain whole)
steps =
    calls (raw_event "BTCUSDT" "depth" "{}" 1000 (some 999) 5)
    ∷ calls (depth_event (event 11 20 10 quotes ask_quotes) 5)
    ∷ calls (book_snapshot "BTCUSDT" 10 1000 quotes ask_quotes)
    ∷ receive (flush down)
    ∷ calls (new_trade sold)
    ∷ receive (flush late)
    ∷ shutdown (flush late)
    ∷ []

run-Delivers_example :
    Delivers plain whole
      (sent_all plain whole steps (start plain whole 1 config))
      (run plain whole steps (start plain whole 1 config))
run-Delivers_example = run-Delivers plain whole 1 config steps

-- Both records wait in the queue at the shutdown.
abbrev waiting : List (Step plain whole)
waiting = calls (raw_event "BTCUSDT" "depth" "{}" 1000 (some 999) 5) ∷ calls (new_trade sold) ∷ []

abbrev last : System ℕ (ℕ × ℕ)
last = run plain whole waiting (start plain whole 1 config)

still_running : last.shared.closed ≡ false
unfolding run step start record_raw record_trade send_or_drop send
still_running = refl

late_accepts : Accepts late 0 last.worker.config.retry_attempts
unfolding run step start record_raw record_trade send_or_drop send
late_accepts = (2, omega arith, refl)

shutdown-Stores_example :
    Stores plain whole
      (sent_all plain whole waiting (start plain whole 1 config))
      (step plain whole (shutdown (flush late)) last)
shutdown-Stores_example =
    shutdown-Stores plain whole 1 config waiting (flush late) still_running
      (record { raws = late_accepts; trades = late_accepts; levels = late_accepts })
