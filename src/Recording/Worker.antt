-- ===== src/Recording/Worker.antt =====
-- src/recording/worker.rs: the worker that takes records from the queue and writes them in batches.
-- An insert is a call of the storage, whose answer is an input; `Store` holds what it acknowledged.
use futures_orderbook.Prelude.{
  ℕ, zero, suc, ◌+◌, max, String, List, [], ◌∷◌, ◌++◌, Bool, true, false, not, ◌||◌, Option, none,
  some, leb, if◌then◌else◌, length,
}
use futures_orderbook.Prelude.Word.{add64, sub64}
use futures_orderbook.Recording.Host.{Host}
use futures_orderbook.Recording.Rows.{
  RawEventRow, TradeRow, LevelChangeRow, SnapshotRow, Record, raw, trade, depth, snapshot,
}
use futures_orderbook.Recording.Metrics.{
  StorageState, StorageError, RecorderMetrics, raw_insert, trades_insert, depth_insert,
  snapshot_insert, record_flush,
}
use futures_orderbook.Recording.Recorder.{Shared}

-- The durations in milliseconds.
pub record RecordingConfig : Type 0 where
  pub batch_size : ℕ
  pub flush_interval : ℕ
  pub queue_capacity : ℕ
  pub retry_attempts : ℕ
  pub retry_backoff : ℕ

unfoldable pub new_config : (batch_size flush_interval_ms queue_capacity : ℕ) → RecordingConfig
new_config batch_size flush_interval_ms queue_capacity = record {
  batch_size = max batch_size 1;
  flush_interval = max flush_interval_ms 1;
  queue_capacity = max queue_capacity 1;
  retry_attempts = 5;
  retry_backoff = 200;
}

unfoldable pub default_config : RecordingConfig
unfolding new_config
default_config = new_config 1000 250 100_000

pub record Worker (Uuid DateTime : Type 0) : Type 0 where
  pub config : RecordingConfig
  pub pending_raw : List (RawEventRow Uuid DateTime)
  pub pending_trades : List (TradeRow Uuid DateTime)
  pub pending_depth : List (LevelChangeRow Uuid DateTime)
  pub pending_snapshot : Option (SnapshotRow Uuid DateTime)
  pub last_synced_degraded : Bool

pub record Store (Uuid DateTime : Type 0) : Type 0 where
  pub raw : List (RawEventRow Uuid DateTime)
  pub trades : List (TradeRow Uuid DateTime)
  pub depth : List (LevelChangeRow Uuid DateTime)
  pub snapshots : List (SnapshotRow Uuid DateTime)
  pub statuses : List String

pub record System (Uuid DateTime : Type 0) : Type 0 where
  pub shared : Shared Uuid DateTime
  pub worker : Worker Uuid DateTime
  pub store : Store Uuid DateTime

-- The answers to the attempts of one batch, from attempt 0: an error, or none.
abbrev pub Answers : Type 0
Answers = ℕ → Option String

-- `last_err.unwrap_or_else`
abbrev last_or_default : Option String → String
last_or_default none = "storage insert failed"
last_or_default (some e) = e

-- The loop of `retry_insert`, with `left` attempts left: the error, or none, and how many attempts
-- failed.
unfoldable pub retry_insert : Answers → (attempt left : ℕ) → Option String → Option String × ℕ
retry_insert answer attempt zero last = (some (last_or_default last), 0)
retry_insert answer attempt (suc left) last = elim (answer attempt) [
  | none ↦ (none, 0)
  | some e ↦
      let (result, failed) = retry_insert answer (attempt + 1) left (some e) in (result, failed + 1)
]

module _ (host : Host) where
  open host use {Uuid, DateTime, byte_len}

  abbrev pub set_metrics : RecorderMetrics → System Uuid DateTime → System Uuid DateTime
  set_metrics m sys = record sys { shared = record sys.shared { metrics = m } }

  abbrev pub count_retries : ℕ → RecorderMetrics → RecorderMetrics
  count_retries n m = record m { retries = add64 m.retries n }

  -- The counters that each kind of batch moves, beside its own.
  abbrev pub flushed : (elapsed_ns n : ℕ) → RecorderMetrics → RecorderMetrics
  flushed elapsed_ns n m =
      let recorded = record_flush elapsed_ns (count_retries n m) in
      record recorded { batches_flushed = add64 recorded.batches_flushed 1 }

  -- `failed_batches` and `mark_degraded`
  abbrev pub mark_failed : ℕ → StorageError → System Uuid DateTime → System Uuid DateTime
  mark_failed n e sys =
      let m = count_retries n sys.shared.metrics in
      let health = sys.shared.health in
      record sys {
        shared = record sys.shared {
          metrics = record m { failed_batches = add64 m.failed_batches 1 };
          health = record health {
            degraded = true;
            insert_failures = add64 health.insert_failures 1;
            last_error = some e;
            state = StorageState.degraded;
          };
        };
      }

  -- Where the worker puts a record, and the count of the queue.
  abbrev pub pend : Record Uuid DateTime → Worker Uuid DateTime → Worker Uuid DateTime
  pend (raw row) w = record w { pending_raw = w.pending_raw ++ row ∷ [] }
  pend (trade row) w = record w { pending_trades = w.pending_trades ++ row ∷ [] }
  pend (depth rows) w = record w { pending_depth = w.pending_depth ++ rows }
  pend (snapshot row) w = record w { pending_snapshot = some row }

  unfoldable pub enqueue : Record Uuid DateTime → System Uuid DateTime → System Uuid DateTime
  enqueue r sys = record sys {
    shared = record sys.shared { queue_len = sub64 sys.shared.queue_len 1 };
    worker = pend r sys.worker;
  }

  unfoldable pub threshold_reached : Worker Uuid DateTime → Bool
  threshold_reached w =
      leb w.config.batch_size (length w.pending_raw)
      || leb w.config.batch_size (length w.pending_trades)
      || leb w.config.batch_size (length w.pending_depth)

  abbrev pub payload_bytes : List (RawEventRow Uuid DateTime) → ℕ
  payload_bytes [] = 0
  payload_bytes (r ∷ rows) = add64 (byte_len r.raw_payload) (payload_bytes rows)

  -- The end of each flush, from the result of the retries. A failed batch goes back to its list,
  -- which was emptied before.
  abbrev pub end_raw :
      Option String × ℕ
      → ℕ
      → List (RawEventRow Uuid DateTime)
      → System Uuid DateTime
      → System Uuid DateTime
  end_raw (none, n) ns batch sys =
      let m = flushed ns n sys.shared.metrics in
      set_metrics
        (record m {
          raw_stored = add64 m.raw_stored (length batch);
          raw_bytes_stored = add64 m.raw_bytes_stored (payload_bytes batch);
        })
        (record sys {
          worker = record sys.worker { pending_raw = [] };
          store = record sys.store { raw = sys.store.raw ++ batch };
        })
  end_raw (some e, n) ns batch sys =
      mark_failed n (raw_insert e)
        (record sys { worker = record sys.worker { pending_raw = [] ++ batch } })

  abbrev pub end_trades :
      Option String × ℕ
      → ℕ
      → List (TradeRow Uuid DateTime)
      → System Uuid DateTime
      → System Uuid DateTime
  end_trades (none, n) ns batch sys =
      let m = flushed ns n sys.shared.metrics in
      set_metrics (record m { trades_stored = add64 m.trades_stored (length batch) })
        (record sys {
          worker = record sys.worker { pending_trades = [] };
          store = record sys.store { trades = sys.store.trades ++ batch };
        })
  end_trades (some e, n) ns batch sys =
      mark_failed n (trades_insert e)
        (record sys { worker = record sys.worker { pending_trades = [] ++ batch } })

  abbrev pub end_depth :
      Option String × ℕ
      → ℕ
      → List (LevelChangeRow Uuid DateTime)
      → System Uuid DateTime
      → System Uuid DateTime
  end_depth (none, n) ns batch sys =
      let m = flushed ns n sys.shared.metrics in
      set_metrics (record m { level_changes_stored = add64 m.level_changes_stored (length batch) })
        (record sys {
          worker = record sys.worker { pending_depth = [] };
          store = record sys.store { depth = sys.store.depth ++ batch };
        })
  end_depth (some e, n) ns batch sys =
      mark_failed n (depth_insert e)
        (record sys { worker = record sys.worker { pending_depth = [] ++ batch } })

  abbrev pub end_snapshot :
      Option String × ℕ
      → ℕ
      → SnapshotRow Uuid DateTime
      → System Uuid DateTime
      → System Uuid DateTime
  end_snapshot (none, n) ns row sys =
      let m = flushed ns n sys.shared.metrics in
      set_metrics (record m { snapshots_stored = add64 m.snapshots_stored 1 })
        (record sys {
          worker = record sys.worker { pending_snapshot = none };
          store = record sys.store { snapshots = sys.store.snapshots ++ row ∷ [] };
        })
  end_snapshot (some e, n) ns row sys =
      mark_failed n (snapshot_insert e)
        (record sys { worker = record sys.worker { pending_snapshot = some row } })

  -- The answers of the storage to one flush of everything, and the nanoseconds that each insert takes.
  pub record Flush : Type 0 where
    pub to_raw : Answers
    pub to_trades : Answers
    pub to_depth : Answers
    pub to_snapshot : Answers
    pub to_status : Option String
    pub raw_ns : ℕ
    pub trades_ns : ℕ
    pub depth_ns : ℕ
    pub snapshot_ns : ℕ

  -- An empty list is not flushed.
  abbrev pub flush_list :
      {A : Type 0}
      → (Option String × ℕ → ℕ → List A → System Uuid DateTime → System Uuid DateTime)
      → Answers
      → ℕ
      → List A
      → System Uuid DateTime
      → System Uuid DateTime
  flush_list end answer ns [] sys = sys
  flush_list end answer ns (x ∷ batch) sys =
      end (retry_insert answer 0 sys.worker.config.retry_attempts none) ns (x ∷ batch) sys

  unfoldable pub flush_raw : Flush → System Uuid DateTime → System Uuid DateTime
  flush_raw f sys = flush_list end_raw f.to_raw f.raw_ns sys.worker.pending_raw sys

  unfoldable pub flush_trades : Flush → System Uuid DateTime → System Uuid DateTime
  flush_trades f sys = flush_list end_trades f.to_trades f.trades_ns sys.worker.pending_trades sys

  unfoldable pub flush_depth : Flush → System Uuid DateTime → System Uuid DateTime
  flush_depth f sys = flush_list end_depth f.to_depth f.depth_ns sys.worker.pending_depth sys

  unfoldable pub flush_snapshot : Flush → System Uuid DateTime → System Uuid DateTime
  flush_snapshot f sys = elim sys.worker.pending_snapshot [
    | none ↦ sys
    | some row ↦
        end_snapshot (retry_insert f.to_snapshot 0 sys.worker.config.retry_attempts none)
          f.snapshot_ns row sys
  ]

  abbrev pub same : Bool → Bool → Bool
  same true b = b
  same false b = not b

  abbrev status_of : Bool → String
  status_of degraded = if degraded then "DEGRADED" else "RECORDING"

  unfoldable pub sync_session_health : Flush → System Uuid DateTime → System Uuid DateTime
  sync_session_health f sys =
      let degraded = sys.shared.health.degraded in
      if same degraded sys.worker.last_synced_degraded then sys else elim f.to_status [
        | some e ↦ sys
        | none ↦ record sys {
          worker = record sys.worker { last_synced_degraded = degraded };
          store = record sys.store { statuses = sys.store.statuses ++ status_of degraded ∷ [] };
        }
      ]

  unfoldable pub flush_all : Flush → System Uuid DateTime → System Uuid DateTime
  flush_all f sys =
      sync_session_health f (flush_snapshot f (flush_depth f (flush_trades f (flush_raw f sys))))
