-- ===== src/Recording/Run.antt =====
-- src/recording/recorder.rs: `start_recorder` and `run_worker`. A step is a call of the recorder, or
-- a branch of the worker's `select!`, flush included. A flush touches neither the queue nor what a
-- call of the recorder does, so that calls during a flush are calls before or after it; the driver asks for a shutdown after its loop.
use futures_orderbook.Prelude.{ℕ, String, List, [], ◌∷◌, true, false, Option, none, if◌then◌else◌}
use futures_orderbook.Level.Floats.{F64}
use futures_orderbook.Binance.{DepthUpdate}
use futures_orderbook.Book.Defs.{Quote}
use futures_orderbook.Recording.Host.{Host}
use futures_orderbook.Recording.Rows.{Record}
use futures_orderbook.Recording.Metrics.{new_health, default_metrics}
use futures_orderbook.Recording.Recorder.{
  NewTrade, Shared, record_raw, record_trade, record_depth_event, record_snapshot,
  record_marker_rejected, record_invalid_rejected,
}
use futures_orderbook.Recording.Worker.{
  RecordingConfig, System, Flush, enqueue, threshold_reached, flush_all,
}

-- The calls of the recorder.
pub data Call : Type 0 where
  raw_event : (symbol stream_type payload : String) → ℕ → Option ℕ → ℕ → Call
  new_trade : NewTrade → Call
  depth_event : DepthUpdate → ℕ → Call
  book_snapshot : String → (id timestamp_ms : ℕ) → (bids asks : List Quote) → Call
  marker invalid : Call

module _ (host : Host) (fl : F64) where
  open host use {Uuid, DateTime}

  abbrev pub call : Call → Shared Uuid DateTime → Shared Uuid DateTime
  call (raw_event symbol stream payload e t l) s = record_raw host symbol stream payload e t l s
  call (new_trade t) s = record_trade host t s
  call (depth_event event local_ns) s = record_depth_event host fl event local_ns s
  call (book_snapshot symbol id ts bids asks) s = record_snapshot host fl symbol id ts bids asks s
  call marker s = record_marker_rejected host s
  call invalid s = record_invalid_rejected host s

  -- The branches of `select!`: a record or the end of the channel, the timer, the shutdown.
  pub data Step : Type 0 where
    calls : Call → Step
    receive tick hang_up shutdown : Flush host → Step

  -- A record, and a flush if a batch is full.
  abbrev pub on_record :
      Flush host → List (Record Uuid DateTime) → System Uuid DateTime → System Uuid DateTime
  on_record f [] sys = sys
  on_record f (r ∷ rest) sys =
      let next = enqueue host r (record sys { shared = record sys.shared { queue = rest } }) in
      if threshold_reached host next.worker then flush_all host f next else next

  -- `while let Ok(record) = worker.recv_try()`
  unfoldable pub drain : List (Record Uuid DateTime) → System Uuid DateTime → System Uuid DateTime
  drain [] sys = record sys { shared = record sys.shared { queue = [] } }
  drain (r ∷ rest) sys =
      drain rest (enqueue host r (record sys { shared = record sys.shared { queue = rest } }))

  -- The worker is dropped, and the receiver with it.
  abbrev pub ended : System Uuid DateTime → System Uuid DateTime
  ended sys = record sys { shared = record sys.shared { closed = true } }

  -- `recv` gives `None` only when the queue is empty.
  abbrev pub on_end :
      Flush host → List (Record Uuid DateTime) → System Uuid DateTime → System Uuid DateTime
  on_end f [] sys = ended (flush_all host f sys)
  on_end f (r ∷ rest) sys = sys

  abbrev pub branch : Step → System Uuid DateTime → System Uuid DateTime
  branch (calls c) sys = record sys { shared = call c sys.shared }
  branch (receive f) sys = on_record f sys.shared.queue sys
  branch (tick f) sys = flush_all host f sys
  branch (hang_up f) sys = on_end f sys.shared.queue sys
  branch (shutdown f) sys = ended (flush_all host f (drain sys.shared.queue sys))

  -- A worker that has ended takes no more steps.

  unfoldable pub step : Step → System Uuid DateTime → System Uuid DateTime
  step (calls c) sys = branch (calls c) sys
  step (receive f) sys = if sys.shared.closed then sys else branch (receive f) sys
  step (tick f) sys = if sys.shared.closed then sys else branch (tick f) sys
  step (hang_up f) sys = if sys.shared.closed then sys else branch (hang_up f) sys
  step (shutdown f) sys = if sys.shared.closed then sys else branch (shutdown f) sys

  unfoldable pub run : List Step → System Uuid DateTime → System Uuid DateTime
  run [] sys = sys
  run (s ∷ steps) sys = run steps (step s sys)

  -- `start_recorder` and `StorageWorker::new`
  unfoldable pub start : Uuid → RecordingConfig → System Uuid DateTime
  start session_id config = record {
    shared = record {
      session_id = session_id;
      seq = 1;
      queue = [];
      closed = false;
      capacity = config.queue_capacity;
      metrics = record default_metrics { queue_capacity = config.queue_capacity };
      health = new_health;
      queue_len = 0;
    };
    worker = record {
      config = config;
      pending_raw = [];
      pending_trades = [];
      pending_depth = [];
      pending_snapshot = none;
      last_synced_degraded = false;
    };
    store = record { raw = []; trades = []; depth = []; snapshots = []; statuses = [] };
  }
