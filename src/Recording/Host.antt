-- ===== src/Recording/Host.antt =====
-- What the recorder uses of other packages, as a parameter: UUIDs, the dates of `chrono`, the JSON of
-- `serde_json`, and the length of a string in bytes.
use futures_orderbook.Prelude.{
  ℕ, ◌+◌, ◌*◌, ◌/◌, ◌%◌, ◌<◌, ◌≤◌, ◌≡◌, String, List, Option, none, some,
}

pub record Host : Type 1 where
  pub Uuid : Type 0
  pub DateTime : Type 0
  -- `from_timestamp`, `timestamp`, `timestamp_subsec_nanos` and `timestamp_subsec_millis`
  pub from_timestamp : (secs nanos : ℕ) → Option DateTime
  pub timestamp : DateTime → ℕ
  pub subsec_nanos : DateTime → ℕ
  pub subsec_millis : DateTime → ℕ
  -- The date of second 0.
  pub epoch : DateTime
  -- `serde_json::to_string` and `from_str` of a list of pairs
  pub to_json : List (ℕ × ℕ) → Option String
  pub from_json : String → Option (List (ℕ × ℕ))
  -- `String::len`
  pub byte_len : String → ℕ

-- The last second that `from_timestamp` accepts, in the year 262142.
abbrev pub max_secs : ℕ
max_secs = 8_210_266_876_799

-- What `chrono` documents of dates since 1970: a date in range is built, and keeps its parts.
pub record IsClock (host : Host) : Type 0 where
  pub built :
      (secs nanos : ℕ)
      → secs ≤ max_secs
      → nanos < 1_000_000_000
      → (d : host.DateTime) × (host.from_timestamp secs nanos ≡ some d)
        × (host.timestamp d ≡ secs)
        × (host.subsec_nanos d ≡ nanos)
  pub millis : (d : host.DateTime) → host.subsec_millis d ≡ host.subsec_nanos d / 1_000_000

module _ (host : Host) where
  open host use {DateTime, from_timestamp, timestamp, subsec_nanos, subsec_millis, epoch}

  abbrev date_or_epoch : Option DateTime → DateTime
  date_or_epoch none = epoch
  date_or_epoch (some d) = d

  unfoldable pub ms_to_datetime : ℕ → DateTime
  ms_to_datetime ms = date_or_epoch (from_timestamp (ms / 1000) (ms % 1000 * 1_000_000))

  unfoldable pub ns_to_datetime : ℕ → DateTime
  ns_to_datetime ns = date_or_epoch (from_timestamp (ns / 1_000_000_000) (ns % 1_000_000_000))

  unfoldable pub datetime_to_ns : DateTime → ℕ
  datetime_to_ns d = timestamp d * 1_000_000_000 + subsec_nanos d

  unfoldable pub datetime_to_ms : DateTime → ℕ
  datetime_to_ms d = timestamp d * 1000 + subsec_millis d
