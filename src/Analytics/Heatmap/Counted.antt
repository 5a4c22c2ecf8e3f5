-- ===== src/Analytics/Heatmap/Counted.antt =====
-- Over any history of calls, a field of the digest is the sum of what each call adds to it.
use futures_orderbook.Prelude.{
  ℕ, ◌+◌, ◌-◌, ◌%◌, ◌≡◌, refl, ◌∙◌, sym, ap, subst, List, [], ◌∷◌, All, arith,
}
use futures_orderbook.Prelude.Word.{u64_mod, word128_mod}
use futures_orderbook.Analytics.Heatmap
use futures_orderbook.Analytics.Heatmap.{
  HeatmapCell, Grid, Heatmap, new_cell, on_cell, feed, grid_price, add_trade, add_large,
  set_resting, count_sweep, count_absorption, count_replenishment,
}
use futures_orderbook.Analytics.Heatmap.Digest.{HeatmapDigest, digest}
use futures_orderbook.Analytics.Heatmap.Calls.{
  Call, trade, large, level, sweep, absorption, replenishment, call, feed_all, IsWord, amounts,
}
use futures_orderbook.Analytics.Heatmap.Totals.{
  IsMeasure, IsSorted, grid_sum, on_cell-IsSorted, grid_sum-on_cell,
}
use futures_orderbook.Analytics.Heatmap.Sums.{IsField, digest-sum}

-- What a call does to its cell.
abbrev pub update_of : Call → HeatmapCell → HeatmapCell
update_of (trade t) = add_trade t
update_of (large t) = add_large t
update_of (level change ts) = set_resting change.side change.new_qty
update_of (sweep price ts) = count_sweep
update_of (absorption price ts) = count_absorption
update_of (replenishment price ts) = count_replenishment

abbrev pub price_of : Call → ℕ
price_of (trade t) = t.price_ticks
price_of (large t) = t.price_ticks
price_of (level change ts) = change.price
price_of (sweep price ts) = price
price_of (absorption price ts) = price
price_of (replenishment price ts) = price

abbrev pub time_of : Call → ℕ
time_of (trade t) = t.trade_time
time_of (large t) = t.trade_time
time_of (level change ts) = ts
time_of (sweep price ts) = ts
time_of (absorption price ts) = ts
time_of (replenishment price ts) = ts

pub call-feed : (c : Call) (h : Heatmap) → call c h ≡ feed (update_of c) (price_of c) (time_of c) h
unfolding call Heatmap.on_trade Heatmap.on_large_trade Heatmap.on_level_change Heatmap.on_sweep
    Heatmap.on_absorption Heatmap.on_replenishment
call-feed (trade t) h = refl
call-feed (large t) h = refl
call-feed (level change ts) h = refl
call-feed (sweep price ts) h = refl
call-feed (absorption price ts) h = refl
call-feed (replenishment price ts) h = refl

-- `measure` grows by `amount`, up to multiples of `m`.
abbrev pub Adds : ℕ → (HeatmapCell → ℕ) → (Call → ℕ) → Type 0
Adds m measure amount =
    (c : Call) (d : HeatmapCell)
    → IsWord c
    → measure (update_of c d) % m ≡ (measure d + amount c) % m

-- What the arithmetic modulo `m` has to give.
abbrev pub Shift : ℕ → Type 0
Shift m =
    (s r t u v q : ℕ) → r + u ≡ s + v → v % m ≡ (u + q) % m → s % m ≡ t % m → r % m ≡ (t + q) % m

pub shift64 : Shift u64_mod
shift64 s r t u v q a b c = omega (arith, a, b, c)

pub shift128 : Shift word128_mod
shift128 s r t u v q a b c = omega (arith, a, b, c)

module _ (m : ℕ) (shift : Shift m) (measure : HeatmapCell → ℕ) (amount : Call → ℕ)
    (is : IsMeasure measure) (adds : Adds m measure amount) where
  abbrev Holds : ℕ → Heatmap → Type 0
  Holds t h = IsSorted h.buckets × (grid_sum measure h.buckets % m ≡ t % m)

  call-Holds :
      (c : Call) (t : ℕ) (h : Heatmap) → IsWord c → Holds t h → Holds (t + amount c) (call c h)
  unfolding feed
  call-Holds c t h w (sorted, e) =
      let start = time_of c - time_of c % h.cell_ms in
      let price = grid_price (price_of c) h in
      let (d, f) = grid_sum-on_cell (update_of c) price start measure is h.buckets sorted in
      let next = feed (update_of c) (price_of c) (time_of c) h in
      subst (Holds (t + amount c)) (sym (call-feed c h)) (
        on_cell-IsSorted (update_of c) price start h.buckets sorted,
        shift (grid_sum measure h.buckets) (grid_sum measure next.buckets) t (measure d)
            (measure (update_of c d)) (amount c) f (adds c d w) e,
      )

  feed_all-Holds :
      (calls : List Call) (t : ℕ) (h : Heatmap)
      → All IsWord calls
      → Holds t h
      → Holds (t + amounts amount calls) (feed_all calls h)
  unfolding feed_all
  feed_all-Holds [] t h w v = let e : t ≡ t + 0 = omega arith in subst (λ n. Holds n h) e v
  feed_all-Holds (c ∷ calls) t h w v =
      let e : t + amount c + amounts amount calls ≡ t + (amount c + amounts amount calls) =
        omega arith in
      subst (λ n. Holds n (feed_all (c ∷ calls) h)) e
        (feed_all-Holds calls (t + amount c) (call c h) w.1 (call-Holds c t h w.0 v))

  -- A field of the digest is the sum of the amounts.
  pub digest_count :
      (field : HeatmapDigest → ℕ) (calls : List Call) (cell_ms retention_ms : ℕ)
      → IsField m field measure
      → All IsWord calls
      → field (digest (feed_all calls (Heatmap.new cell_ms retention_ms)))
        ≡ amounts amount calls % m
  unfolding Heatmap.new
  digest_count field calls cell_ms retention_ms fi words =
      let start : Heatmap = Heatmap.new cell_ms retention_ms in
      let sum = (feed_all-Holds calls 0 start words (record { outer = tt; inner = tt }, refl)).1 in
      let e : 0 + amounts amount calls ≡ amounts amount calls = omega arith in
      digest-sum m field measure fi (feed_all calls start) ∙ sum ∙ ap (λ n. n % m) e
