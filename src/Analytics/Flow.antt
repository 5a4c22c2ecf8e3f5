-- ===== src/Analytics/Flow.antt =====
-- src/analytics/flow.rs: delta, cumulative delta, volume at price and time buckets. The `i128`
-- numbers are words; the head of `completed` is the front of the deque. The intervals of the
-- configuration are not zero (the source's `%` panics on zero).
pub mod Profile
use futures_orderbook.Prelude.{
  ℕ, ◌+◌, ◌-◌, ◌%◌, List, [], ◌∷◌, ◌++◌, Bool, ◌&&◌, ◌||◌, Option, none, some, ◌==◌, ltb,
  if◌then◌else◌,
}
use futures_orderbook.Prelude.Word.{add64, sub128}
use futures_orderbook.TreeMap.{TreeMap, get, insert}
use futures_orderbook.Trades.Trade.{TradeEvent}
use futures_orderbook.Analytics.Buckets.{
  TimeBucket, Buckets, empty, get_bucket, put_bucket, remove_bucket, last_before, add_bucket,
  bucket_or_empty, drop_before, sort_buckets,
}
use futures_orderbook.Analytics.Clusters.{add_buy, add_sell, add_delta}

pub record FlowTotals : Type 0 where
  pub trade_count : ℕ
  pub buy_volume : ℕ
  pub sell_volume : ℕ
  pub cvd : ℕ

unfoldable pub trade_volume : FlowTotals → ℕ
trade_volume t = add64 t.buy_volume t.sell_volume

unfoldable pub delta : FlowTotals → ℕ
delta t = sub128 t.buy_volume t.sell_volume

pub record VolumeAtPrice : Type 0 where
  pub price : ℕ
  pub buy_volume : ℕ
  pub sell_volume : ℕ
  pub total_volume : ℕ
  pub delta : ℕ
  pub trade_count : ℕ
  pub large_trade_count : ℕ

pub record TradeFlow : Type 0 where
  pub totals : FlowTotals
  pub volume_by_price : TreeMap VolumeAtPrice
  pub bucket_totals : Buckets
  pub completed : List TimeBucket
  pub intervals : List ℕ
  pub retention_ms : ℕ

unfoldable pub new : List ℕ → ℕ → TradeFlow
new intervals retention_ms = record {
  totals = record { trade_count = 0; buy_volume = 0; sell_volume = 0; cvd = 0 };
  volume_by_price = [];
  bucket_totals = [];
  completed = [];
  intervals = intervals;
  retention_ms = retention_ms;
}

abbrev pub add_totals : TradeEvent → FlowTotals → FlowTotals
add_totals trade t =
    let qty = trade.quantity_ticks in
    record {
      trade_count = add64 t.trade_count 1;
      buy_volume = add_buy trade.aggressor qty t.buy_volume;
      sell_volume = add_sell trade.aggressor qty t.sell_volume;
      cvd = add_delta trade.aggressor qty t.cvd;
    }

-- `or_insert_with`
abbrev pub entry_or_new : ℕ → Option VolumeAtPrice → VolumeAtPrice
entry_or_new price (some v) = v
entry_or_new price none = record {
  price = price;
  buy_volume = 0;
  sell_volume = 0;
  total_volume = 0;
  delta = 0;
  trade_count = 0;
  large_trade_count = 0;
}

abbrev pub add_entry : TradeEvent → VolumeAtPrice → VolumeAtPrice
add_entry trade v =
    let qty = trade.quantity_ticks in
    record v {
      total_volume = add64 v.total_volume qty;
      trade_count = add64 v.trade_count 1;
      buy_volume = add_buy trade.aggressor qty v.buy_volume;
      sell_volume = add_sell trade.aggressor qty v.sell_volume;
      delta = add_delta trade.aggressor qty v.delta;
    }

unfoldable pub add_profile : TradeEvent → TreeMap VolumeAtPrice → TreeMap VolumeAtPrice
add_profile trade m =
    insert trade.price_ticks
      (add_entry trade (entry_or_new trade.price_ticks (get trade.price_ticks m))) m

unfoldable pub finalize_bucket : ℕ → ℕ → ℕ → TradeFlow → TradeFlow × TimeBucket
finalize_bucket interval start_ms end_ms f =
    let found =
      bucket_or_empty interval start_ms (get_bucket (interval, start_ms) f.bucket_totals) in
    let bucket = record found { end_ms = end_ms; cvd_end = f.totals.cvd } in
    (
      record f {
        bucket_totals = remove_bucket (interval, start_ms) f.bucket_totals;
        completed = f.completed ++ bucket ∷ [];
      },
      bucket,
    )

-- The bucket of an interval that has none for the trade yet, and the one that this closes.
unfoldable pub open_bucket : ℕ → ℕ → TradeFlow → TradeFlow × List TimeBucket
open_bucket interval start f = elim (last_before interval start none f.bucket_totals) [
  | none ↦ (
    record f {
      bucket_totals = put_bucket (interval, start) (empty interval start) f.bucket_totals;
    },
    [],
  )
  | some prev_start ↦
      let (g, bucket) = finalize_bucket interval prev_start start f in
      let left = remove_bucket (interval, prev_start) g.bucket_totals in
      (
        record g { bucket_totals = put_bucket (interval, start) (empty interval start) left },
        bucket ∷ [],
      )
]

-- The source unwraps: the bucket is there, or was just put there.
abbrev pub grow_bucket : TradeEvent → ℕ × ℕ → TradeFlow → TradeFlow
grow_bucket trade key f = elim (get_bucket key f.bucket_totals) [
  | none ↦ f
  | some b ↦ record f { bucket_totals = put_bucket key (add_bucket trade b) f.bucket_totals }
]

-- One round of the loop over the intervals.
unfoldable pub on_interval : TradeEvent → ℕ → TradeFlow → TradeFlow × List TimeBucket
on_interval trade interval f =
    let start = trade.trade_time - trade.trade_time % interval in
    elim (get_bucket (interval, start) f.bucket_totals) [
      | some _ ↦ (grow_bucket trade (interval, start) f, [])
      | none ↦
          let (g, closed) = open_bucket interval start f in
          (grow_bucket trade (interval, start) g, closed)
    ]

unfoldable pub on_intervals : TradeEvent → List ℕ → TradeFlow → TradeFlow × List TimeBucket
on_intervals trade [] f = (f, [])
on_intervals trade (interval ∷ rest) f =
    let (g, closed) = on_interval trade interval f in
    let (h, later) = on_intervals trade rest g in (h, closed ++ later)

unfoldable pub on_trade : TradeEvent → TradeFlow → TradeFlow × List TimeBucket
on_trade trade f = on_intervals trade f.intervals (record f {
  totals = add_totals trade f.totals;
  volume_by_price = add_profile trade f.volume_by_price;
})

abbrev mark_large : Option VolumeAtPrice → ℕ → TreeMap VolumeAtPrice → TreeMap VolumeAtPrice
mark_large none price m = m
mark_large (some v) price m =
    insert price (record v { large_trade_count = add64 v.large_trade_count 1 }) m

unfoldable pub record_large_trade : ℕ → TradeFlow → TradeFlow
record_large_trade price f = record f {
  volume_by_price = mark_large (get price f.volume_by_price) price f.volume_by_price;
}

unfoldable pub prune : ℕ → TradeFlow → TradeFlow
prune now_ms f = record f { completed = drop_before (now_ms - f.retention_ms) f.completed }

unfoldable pub take_completed : TradeFlow → TradeFlow × List TimeBucket
take_completed f = (record f { completed = [] }, sort_buckets f.completed)
