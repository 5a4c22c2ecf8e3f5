-- ===== src/Recording/Metrics.antt =====
-- src/recording/metrics.rs. The texts of the errors are kept as what they are made of.
use futures_orderbook.Prelude.{ℕ, ◌/◌, String, Bool, false, Option, none, ◌==◌, ltb, if◌then◌else◌}
use futures_orderbook.Prelude.Word.{add64, add128}

pub data StorageState : Type 0 where
  connecting healthy degraded failed : StorageState

unfoldable pub label : StorageState → String
label connecting = "CONNECTING"
label healthy = "CONNECTED"
label degraded = "DEGRADED"
label failed = "FAILED"

pub data StorageError : Type 0 where
  queue_full : ℕ → StorageError
  raw_insert trades_insert depth_insert snapshot_insert : String → StorageError

pub record StorageHealth : Type 0 where
  pub state : StorageState
  pub degraded : Bool
  pub last_error : Option StorageError
  pub queue_overflows : ℕ
  pub insert_failures : ℕ

unfoldable pub new_health : StorageHealth
new_health = record {
  state = connecting;
  degraded = false;
  last_error = none;
  queue_overflows = 0;
  insert_failures = 0;
}

pub record RecorderMetrics : Type 0 where
  pub raw_received : ℕ
  pub raw_bytes_received : ℕ
  pub raw_stored : ℕ
  pub raw_bytes_stored : ℕ
  pub raw_dropped : ℕ
  pub trades_received : ℕ
  pub trades_stored : ℕ
  pub trades_dropped : ℕ
  pub marker_rejected : ℕ
  pub invalid_rejected : ℕ
  pub depth_events_received : ℕ
  pub level_changes_stored : ℕ
  pub depth_dropped : ℕ
  pub snapshots_stored : ℕ
  pub batches_flushed : ℕ
  pub failed_batches : ℕ
  pub retries : ℕ
  pub queue_depth : ℕ
  pub queue_high_water : ℕ
  pub last_flush_duration_ns : ℕ
  pub max_flush_duration_ns : ℕ
  pub total_flush_duration_ns : ℕ
  pub flush_ops : ℕ
  pub queue_capacity : ℕ

-- The derived `Default`.
unfoldable pub default_metrics : RecorderMetrics
default_metrics = record {
  raw_received = 0;
  raw_bytes_received = 0;
  raw_stored = 0;
  raw_bytes_stored = 0;
  raw_dropped = 0;
  trades_received = 0;
  trades_stored = 0;
  trades_dropped = 0;
  marker_rejected = 0;
  invalid_rejected = 0;
  depth_events_received = 0;
  level_changes_stored = 0;
  depth_dropped = 0;
  snapshots_stored = 0;
  batches_flushed = 0;
  failed_batches = 0;
  retries = 0;
  queue_depth = 0;
  queue_high_water = 0;
  last_flush_duration_ns = 0;
  max_flush_duration_ns = 0;
  total_flush_duration_ns = 0;
  flush_ops = 0;
  queue_capacity = 0;
}

unfoldable pub avg_flush_duration_ns : RecorderMetrics → ℕ
avg_flush_duration_ns m = if m.flush_ops == 0 then 0 else m.total_flush_duration_ns / m.flush_ops

abbrev pub record_flush : ℕ → RecorderMetrics → RecorderMetrics
record_flush duration_ns m = record m {
  flush_ops = add64 m.flush_ops 1;
  total_flush_duration_ns = add128 m.total_flush_duration_ns duration_ns;
  last_flush_duration_ns = duration_ns;
  max_flush_duration_ns =
      if ltb m.max_flush_duration_ns duration_ns then duration_ns else m.max_flush_duration_ns;
}
