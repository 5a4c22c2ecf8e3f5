-- ===== src/Analytics/Flow/Profile.antt =====
-- The volume profile and the session totals hold the same volume.
use futures_orderbook.Prelude.{
  ℕ, ◌+◌, ◌-◌, ◌%◌, ◌<◌, ◌≡◌, refl, sym, ◌∙◌, subst, List, [], ◌∷◌, Option, none, some,
  Option-cases, inl, inr, All, arith,
}
use futures_orderbook.Prelude.Word.{u64_mod, add128}
use futures_orderbook.TreeMap.{TreeMap, get, IsOrdered}
use futures_orderbook.TreeMap.Laws.{insert-Ascends}
use futures_orderbook.TreeMap.Sums.{sum, measured, sum-insert, measured_le}
use futures_orderbook.TreeMap.Entries.{insert-All, All-get}
use futures_orderbook.Trades.Trade.{TradeEvent}
use futures_orderbook.Analytics.Clusters.Volume.{add_sides, quantities}
use futures_orderbook.Analytics.Buckets.{get_bucket, last_before}
use futures_orderbook.Analytics.Flow.{
  FlowTotals, VolumeAtPrice, TradeFlow, new, grow_bucket, add_totals, entry_or_new, add_entry,
  add_profile, finalize_bucket, open_bucket, on_interval, on_intervals, on_trade,
}

-- A profile entry: its key is its price, its volume that of its sides, its delta their difference.
pub record IsEntry (e : ℕ × VolumeAtPrice) : Type 0 where
  pub price : e.1.price ≡ e.0
  pub volume : e.1.buy_volume + e.1.sell_volume ≡ e.1.total_volume
  pub delta : add128 e.1.delta e.1.sell_volume ≡ e.1.buy_volume

abbrev pub profile_volume : TreeMap VolumeAtPrice → ℕ
profile_volume = sum (λ v. v.total_volume)

-- `m` is the volume of the trades so far.
pub record IsBalanced (m : ℕ) (totals : FlowTotals) (profile : TreeMap VolumeAtPrice) : Type 0 where
  pub volume : totals.buy_volume + totals.sell_volume ≡ m
  pub cvd : add128 totals.cvd totals.sell_volume ≡ totals.buy_volume
  pub ordered : IsOrdered profile
  pub entries : All IsEntry profile
  pub spread : profile_volume profile ≡ m

abbrev volume_of : Option VolumeAtPrice → ℕ
volume_of = measured (λ v. v.total_volume)

-- Only the buckets change in the loop over the intervals.
abbrev pub Keeps : TradeFlow → TradeFlow → Type 0
Keeps f g = (g.totals ≡ f.totals) × (g.volume_by_price ≡ f.volume_by_price)

grow_bucket-Keeps :
    (trade : TradeEvent) (key : ℕ × ℕ) (f : TradeFlow) → Keeps f (grow_bucket trade key f)
grow_bucket-Keeps trade key f = elim (Option-cases (get_bucket key f.bucket_totals)) [
  | inl e ↦ rw (e, grow_bucket) (refl, refl)
  | inr (b, e) ↦ rw (e, grow_bucket) (refl, refl)
]

open_bucket-Keeps : (interval start : ℕ) (f : TradeFlow) → Keeps f (open_bucket interval start f).0
unfolding open_bucket finalize_bucket
open_bucket-Keeps interval start f =
    elim (Option-cases (last_before interval start none f.bucket_totals)) [
      | inl e ↦ rw (e, open_bucket) (refl, refl)
      | inr (p, e) ↦ rw (e, open_bucket) (refl, refl)
    ]

Keeps-trans : (f g h : TradeFlow) → Keeps f g → Keeps g h → Keeps f h
Keeps-trans f g h (a, b) (c, d) = (c ∙ a, d ∙ b)

on_interval-Keeps :
    (trade : TradeEvent) (interval : ℕ) (f : TradeFlow) → Keeps f (on_interval trade interval f).0
unfolding on_interval
on_interval-Keeps trade interval f =
    let start = trade.trade_time - trade.trade_time % interval in
    elim (Option-cases (get_bucket (interval, start) f.bucket_totals)) [
      | inl e ↦
          let g = (open_bucket interval start f).0 in
          rw (e, on_interval)
            (Keeps-trans f g (grow_bucket trade (interval, start) g)
              (open_bucket-Keeps interval start f) (grow_bucket-Keeps trade (interval, start) g))
      | inr (b, e) ↦ rw (e, on_interval) (grow_bucket-Keeps trade (interval, start) f)
    ]

pub on_intervals-Keeps :
    (trade : TradeEvent) (intervals : List ℕ) (f : TradeFlow)
    → Keeps f (on_intervals trade intervals f).0
unfolding on_intervals
on_intervals-Keeps trade [] f = (refl, refl)
on_intervals-Keeps trade (interval ∷ rest) f =
    let g = (on_interval trade interval f).0 in
    Keeps-trans f g (on_intervals trade rest g).0 (on_interval-Keeps trade interval f)
      (on_intervals-Keeps trade rest g)

IsEntry-new : (k : ℕ) → IsEntry (k, entry_or_new k none)
IsEntry-new k = record { price = refl; volume = refl; delta = refl }

found-IsEntry :
    (k : ℕ) (m : TreeMap VolumeAtPrice) (o : Option VolumeAtPrice)
    → get k m ≡ o
    → All IsEntry m
    → IsEntry (k, entry_or_new k o) × ((entry_or_new k o).total_volume ≡ volume_of o)
found-IsEntry k m none e a = (IsEntry-new k, refl)
found-IsEntry k m (some v) e a = (All-get IsEntry k v m a e, refl)

add_profile_lem :
    (trade : TradeEvent) (m : ℕ) (profile : TreeMap VolumeAtPrice)
    → m + trade.quantity_ticks < u64_mod
    → IsOrdered profile
    → All IsEntry profile
    → profile_volume profile ≡ m
    → IsOrdered (add_profile trade profile)
      × All IsEntry (add_profile trade profile)
      × (profile_volume (add_profile trade profile) ≡ m + trade.quantity_ticks)
unfolding add_profile
add_profile_lem trade m profile room ordered entries volume =
    let k = trade.price_ticks in
    let qty = trade.quantity_ticks in
    let v = entry_or_new k (get k profile) in
    let (entry, held) = found-IsEntry k profile (get k profile) refl entries in
    let bound = measured_le (λ (w : VolumeAtPrice). w.total_volume) k profile in
    let (sides, delta) =
      add_sides trade.aggressor qty v.buy_volume v.sell_volume v.delta
        (omega (arith, entry.volume, held, bound, volume)) entry.delta in
    (
      insert-Ascends k (add_entry trade v) profile 0 (omega arith) ordered,
      insert-All IsEntry k (add_entry trade v) profile
          (record {
            price = entry.price;
            volume = omega (arith, sides, entry.volume, held, bound, volume);
            delta = delta;
          })
          entries,
      omega (
        arith,
        sum-insert (λ (w : VolumeAtPrice). w.total_volume) k 0 (add_entry trade v) profile ordered,
        held,
        bound,
        volume,
      ),
    )

abbrev Tracks : ℕ → TradeFlow → Type 0
Tracks m f = IsBalanced m f.totals f.volume_by_price

on_trade-Tracks :
    (trade : TradeEvent) (m : ℕ) (f : TradeFlow)
    → m + trade.quantity_ticks < u64_mod
    → Tracks m f
    → Tracks (m + trade.quantity_ticks) (on_trade trade f).0
unfolding on_trade
on_trade-Tracks trade m f room v =
    let (ordered, entries, spread) =
      add_profile_lem trade m f.volume_by_price room v.ordered v.entries v.spread in
    let (volume, cvd) =
      add_sides trade.aggressor trade.quantity_ticks f.totals.buy_volume f.totals.sell_volume
        f.totals.cvd (omega (arith, v.volume)) v.cvd in
    let next = record f {
      totals = add_totals trade f.totals;
      volume_by_price = add_profile trade f.volume_by_price;
    } in
    let (same_totals, same_profile) = on_intervals-Keeps trade f.intervals next in
    let balanced : IsBalanced (m + trade.quantity_ticks) next.totals next.volume_by_price = record {
      volume = omega (arith, volume, v.volume);
      cvd = cvd;
      ordered = ordered;
      entries = entries;
      spread = spread;
    } in
    subst
      (λ t.
        IsBalanced (m + trade.quantity_ticks) t
          (on_intervals trade f.intervals next).0.volume_by_price)
      (sym same_totals)
      (subst (IsBalanced (m + trade.quantity_ticks) next.totals) (sym same_profile) balanced)

unfoldable pub flow_all : List TradeEvent → TradeFlow → TradeFlow
flow_all [] f = f
flow_all (trade ∷ trades) f = flow_all trades (on_trade trade f).0

flow_all-Tracks :
    (trades : List TradeEvent) (m : ℕ) (f : TradeFlow)
    → m + quantities trades < u64_mod
    → Tracks m f
    → Tracks (m + quantities trades) (flow_all trades f)
unfolding flow_all
flow_all-Tracks [] m f room v = let e : m ≡ m + 0 = omega arith in subst (λ n. Tracks n f) e v
flow_all-Tracks (trade ∷ trades) m f room v =
    let w =
      flow_all-Tracks trades (m + trade.quantity_ticks) (on_trade trade f).0 (omega arith)
        (on_trade-Tracks trade m f (omega arith) v) in
    let e : m + trade.quantity_ticks + quantities trades
        ≡ m + (trade.quantity_ticks + quantities trades) =
      omega arith in
    subst (λ n. Tracks n (flow_all (trade ∷ trades) f)) e w

-- From a new flow with any intervals, none of them 0, and any trades whose quantities sum to less than 2^64: the
-- session's buy and sell volumes sum to that of the trades and its cumulative delta is their
-- difference; the profile is ordered by price, the volumes of its entries sum to that of the trades
-- too, and each entry has its price as key, the volume of its two sides, and their difference as
-- delta.
pub flow_all_balances :
    (intervals : List ℕ) (retention_ms : ℕ) (trades : List TradeEvent)
    → All (λ interval. 0 < interval) intervals
    → quantities trades < u64_mod
    → let f = flow_all trades (new intervals retention_ms) in
      IsBalanced (quantities trades) f.totals f.volume_by_price
unfolding new
flow_all_balances intervals retention_ms trades long few =
    let start : TradeFlow = new intervals retention_ms in
    let e : 0 + quantities trades ≡ quantities trades = omega arith in
    subst (λ n. Tracks n (flow_all trades start)) e
      (flow_all-Tracks trades 0 start (omega arith)
        (record { volume = refl; cvd = refl; ordered = tt; entries = tt; spread = refl }))
