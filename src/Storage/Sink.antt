-- ===== src/Storage/Sink.antt =====
-- src/storage/analytics.rs: the sink. Whether an insert is accepted, by flush and table, is an input.
use futures_orderbook.Prelude.{
  ℕ, ◌+◌, max, List, [], ◌∷◌, ◌++◌, Bool, not, ◌&&◌, ◌||◌, leb, if◌then◌else◌, length,
}
use futures_orderbook.Storage.Analytics.{AnalyticsBatch, is_nil, is_empty, cleared}

pub data Table : Type 0 where
  snapshots events delta_by_price liquidity_events : Table

-- `flushes` counts the calls of `flush_batch`; `stored` is what the storage holds.
pub record Sink (Uuid DateTime Float : Type 0) : Type 0 where
  pub channel : List (AnalyticsBatch Uuid DateTime Float)
  pub pending : AnalyticsBatch Uuid DateTime Float
  pub stored : AnalyticsBatch Uuid DateTime Float
  pub flushes : ℕ

module _ {Uuid DateTime Float : Type 0} where
  abbrev pub started : Sink Uuid DateTime Float
  started = record { channel = []; pending = cleared; stored = cleared; flushes = 0 }

  unfoldable pub submit :
      AnalyticsBatch Uuid DateTime Float → Sink Uuid DateTime Float → Sink Uuid DateTime Float
  submit b s = if is_empty b then s else record s { channel = s.channel ++ b ∷ [] }

  abbrev pub extend :
      AnalyticsBatch Uuid DateTime Float
      → AnalyticsBatch Uuid DateTime Float
      → AnalyticsBatch Uuid DateTime Float
  extend a b = record {
    snapshots = a.snapshots ++ b.snapshots;
    events = a.events ++ b.events;
    delta_by_price = a.delta_by_price ++ b.delta_by_price;
    liquidity_events = a.liquidity_events ++ b.liquidity_events;
  }

-- An insert is a call for rows that there are, and the rows are there after it if it is accepted.
abbrev pub insert :
    (accepts : ℕ → Table → Bool) → {A : Type 0} → ℕ → Table → List A → List A → List A
insert accepts n table rows stored =
    if not (is_nil rows) && accepts n table then stored ++ rows else stored

module _ {Uuid DateTime Float : Type 0} (accepts : ℕ → Table → Bool) where
  -- Both ends of the function clear what is pending.
  unfoldable pub flush_batch : Sink Uuid DateTime Float → Sink Uuid DateTime Float
  flush_batch s =
      let n = s.flushes in
      record s {
        stored = record {
          snapshots = insert accepts n snapshots s.pending.snapshots s.stored.snapshots;
          events = insert accepts n events s.pending.events s.stored.events;
          delta_by_price =
              insert accepts n delta_by_price s.pending.delta_by_price s.stored.delta_by_price;
          liquidity_events =
              insert accepts n liquidity_events s.pending.liquidity_events
                s.stored.liquidity_events;
        };
        pending = cleared;
        flushes = n + 1;
      }

  abbrev is_full : (capacity : ℕ) → AnalyticsBatch Uuid DateTime Float → Bool
  is_full capacity b =
      leb capacity (length b.snapshots)
      || leb capacity (length b.events)
      || leb capacity (length b.liquidity_events)

  -- A round of the worker's loop.
  unfoldable pub on_batch :
      (capacity : ℕ)
      → AnalyticsBatch Uuid DateTime Float
      → Sink Uuid DateTime Float
      → Sink Uuid DateTime Float
  on_batch capacity b s =
      let more = record s { pending = extend s.pending b } in
      if is_full capacity more.pending then flush_batch more else more

  unfoldable pub on_batches :
      (capacity : ℕ)
      → List (AnalyticsBatch Uuid DateTime Float)
      → Sink Uuid DateTime Float
      → Sink Uuid DateTime Float
  on_batches capacity [] s = s
  on_batches capacity (b ∷ batches) s = on_batches capacity batches (on_batch capacity b s)

  -- The worker, from its start until the channel is closed and empty.
  unfoldable pub run_sink :
      (channel_capacity : ℕ) → Sink Uuid DateTime Float → Sink Uuid DateTime Float
  run_sink channel_capacity s =
      flush_batch (
        on_batches (max channel_capacity 1) s.channel
          (record s { channel = []; pending = cleared }))
