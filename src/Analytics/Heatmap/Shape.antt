-- ===== src/Analytics/Heatmap/Shape.antt =====
-- What holds of every cell in every history of the heatmap, pruning included.
use futures_orderbook.Prelude.{
  ℕ, ◌+◌, ◌-◌, ◌*◌, ◌/◌, ◌%◌, ◌≡◌, refl, ◌∙◌, ap, sym, subst, List, [], ◌∷◌, some, All, arith,
  Option-cases, inl, inr, if-elim, ltb,
}
use native.Mathlib.Nat.{mul-mod_right}
use native.Mathlib.Omega.{div_any}
use futures_orderbook.Prelude.Word.{u64_mod}
use futures_orderbook.TreeMap.{TreeMap, get, insert, remove, IsOrdered}
use futures_orderbook.TreeMap.Laws.{insert-Ascends, remove-Ascends}
use futures_orderbook.TreeMap.Entries.{insert-All, remove-All, All-get}
use futures_orderbook.Analytics.Shadow.{BookSide, bid, ask}
use futures_orderbook.Analytics.Clusters.{add_delta}
use futures_orderbook.Analytics.Heatmap
use futures_orderbook.Analytics.Heatmap.{
  HeatmapCell, Grid, Heatmap, new_cell, cells_or_new, cell_or_new, on_cell, feed, grid_price,
  add_trade, add_large, set_resting, count_sweep, count_absorption, count_replenishment, stale_keys,
  remove_all, prune,
}
use futures_orderbook.Analytics.Heatmap.Calls.{
  Call, trade, large, level, sweep, absorption, replenishment, call,
}
use futures_orderbook.Analytics.Heatmap.Counted.{update_of, price_of, time_of, call-feed}

-- The entry of a price in the cells of a bucket.
pub record IsCellAt (start : ℕ) (e : ℕ × HeatmapCell) : Type 0 where
  pub price : e.1.price ≡ e.0
  pub bucket : e.1.timestamp_bucket ≡ some start
  pub pressure : e.1.pressure ≡ e.1.delta
  pub liquidity :
      (e.1.resting_bid_liquidity + e.1.resting_ask_liquidity + e.1.liquidity_removed) % u64_mod
      ≡ e.1.liquidity_added % u64_mod

pub record IsBucketAt (width : ℕ) (e : ℕ × TreeMap HeatmapCell) : Type 0 where
  pub aligned : e.0 % width ≡ 0
  pub ordered : IsOrdered e.1
  pub cells : All (IsCellAt e.0) e.1

pub record IsShaped (h : Heatmap) : Type 0 where
  pub ordered : IsOrdered h.buckets
  pub buckets : All (IsBucketAt h.cell_ms) h.buckets

abbrev Keeps : (HeatmapCell → HeatmapCell) → Type 0
Keeps f = (start k : ℕ) (c : HeatmapCell) → IsCellAt start (k, c) → IsCellAt start (k, f c)

aligned_start : (ts w : ℕ) → (ts - ts % w) % w ≡ 0
aligned_start ts w =
    let e : ts - ts % w ≡ w * (ts / w) = omega (arith, div_any ts w) in
    ap (λ n. n % w) e ∙ mul-mod_right w (ts / w)

set_resting-Keeps : (side : BookSide) (new : ℕ) → Keeps (set_resting side new)
unfolding set_resting
set_resting-Keeps bid new start k c v =
    if-elim (λ d. IsCellAt start (k, d)) (ltb c.resting_bid_liquidity new) _ _
      (λ up. record {
        price = v.price;
        bucket = v.bucket;
        pressure = v.pressure;
        liquidity = ground (arith, up, v.liquidity);
      })
      (λ not_up.
        if-elim (λ d. IsCellAt start (k, d)) (ltb new c.resting_bid_liquidity) _ _
          (λ down. record {
            price = v.price;
            bucket = v.bucket;
            pressure = v.pressure;
            liquidity = ground (arith, down, v.liquidity);
          })
          (λ same. v))
set_resting-Keeps ask new start k c v =
    if-elim (λ d. IsCellAt start (k, d)) (ltb c.resting_ask_liquidity new) _ _
      (λ up. record {
        price = v.price;
        bucket = v.bucket;
        pressure = v.pressure;
        liquidity = ground (arith, up, v.liquidity);
      })
      (λ not_up.
        if-elim (λ d. IsCellAt start (k, d)) (ltb new c.resting_ask_liquidity) _ _
          (λ down. record {
            price = v.price;
            bucket = v.bucket;
            pressure = v.pressure;
            liquidity = ground (arith, down, v.liquidity);
          })
          (λ same. v))

update_of-Keeps : (c : Call) → Keeps (update_of c)
unfolding add_trade add_large count_sweep count_absorption count_replenishment
update_of-Keeps (trade t) start k c v = record {
  price = v.price;
  bucket = v.bucket;
  pressure = ap (add_delta t.aggressor t.quantity_ticks) v.pressure;
  liquidity = v.liquidity;
}
update_of-Keeps (large t) start k c v = record {
  price = v.price;
  bucket = v.bucket;
  pressure = v.pressure;
  liquidity = v.liquidity;
}
update_of-Keeps (level change ts) start k c v =
    set_resting-Keeps change.side change.new_qty start k c v
update_of-Keeps (sweep price ts) start k c v = record {
  price = v.price;
  bucket = v.bucket;
  pressure = v.pressure;
  liquidity = v.liquidity;
}
update_of-Keeps (absorption price ts) start k c v = record {
  price = v.price;
  bucket = v.bucket;
  pressure = v.pressure;
  liquidity = v.liquidity;
}
update_of-Keeps (replenishment price ts) start k c v = record {
  price = v.price;
  bucket = v.bucket;
  pressure = v.pressure;
  liquidity = v.liquidity;
}

abbrev placed : (start price : ℕ) → HeatmapCell → HeatmapCell
placed start price c = record c { timestamp_bucket = some start; price = price }

found-IsCellAt :
    (start price : ℕ) (cells : TreeMap HeatmapCell)
    → All (IsCellAt start) cells
    → IsCellAt start (price, placed start price (cell_or_new price (get price cells)))
found-IsCellAt start price cells h = elim (Option-cases (get price cells)) [
  | inl e ↦ rw e (record { price = refl; bucket = refl; pressure = refl; liquidity = refl })
  | inr (c, e) ↦
      let v = All-get (IsCellAt start) price c cells h e in
      rw e (record { price = refl; bucket = refl; pressure = v.pressure; liquidity = v.liquidity })
]

found_bucket :
    (width start : ℕ) (g : Grid)
    → All (IsBucketAt width) g
    → IsOrdered (cells_or_new (get start g)) × All (IsCellAt start) (cells_or_new (get start g))
found_bucket width start g h = elim (Option-cases (get start g)) [
  | inl e ↦ rw e (tt, tt)
  | inr (cells, e) ↦
      let v = All-get (IsBucketAt width) start cells g h e in rw e (v.ordered, v.cells)
]

feed-IsShaped :
    (f : HeatmapCell → HeatmapCell) (price_ticks ts : ℕ) (h : Heatmap)
    → Keeps f
    → IsShaped h
    → IsShaped (feed f price_ticks ts h)
unfolding feed on_cell
feed-IsShaped f price_ticks ts h keeps v =
    let price = grid_price price_ticks h in
    let start = ts - ts % h.cell_ms in
    let cells = cells_or_new (get start h.buckets) in
    let (ordered, placed_cells) = found_bucket h.cell_ms start h.buckets v.buckets in
    let cell = placed start price (cell_or_new price (get price cells)) in
    let now = keeps start price cell (found-IsCellAt start price cells placed_cells) in
    let row = insert price (f cell) cells in
    let bucket : IsBucketAt h.cell_ms (start, row) = record {
      aligned = aligned_start ts h.cell_ms;
      ordered = insert-Ascends price (f cell) cells 0 (omega arith) ordered;
      cells = insert-All (IsCellAt start) price (f cell) cells now placed_cells;
    } in
    record {
      ordered = insert-Ascends start row h.buckets 0 (omega arith) v.ordered;
      buckets = insert-All (IsBucketAt h.cell_ms) start row h.buckets bucket v.buckets;
    }

remove_all-IsShaped :
    (width : ℕ) (stale : List ℕ) (g : Grid)
    → IsOrdered g
    → All (IsBucketAt width) g
    → IsOrdered (remove_all stale g) × All (IsBucketAt width) (remove_all stale g)
unfolding remove_all
remove_all-IsShaped width [] g o a = (o, a)
remove_all-IsShaped width (ts ∷ stale) g o a =
    remove_all-IsShaped width stale (remove ts g) (remove-Ascends ts g 0 o)
      (remove-All (IsBucketAt width) ts g a)

-- A step of a history: a call that feeds the heatmap, or a pruning at a time.
pub data Move : Type 0 where
  feeds : Call → Move
  prunes : ℕ → Move

abbrev pub move : Move → Heatmap → Heatmap
move (feeds c) h = call c h
move (prunes now_ms) h = prune now_ms h

unfoldable pub move_all : List Move → Heatmap → Heatmap
move_all [] h = h
move_all (s ∷ moves) h = move_all moves (move s h)

move-IsShaped : (s : Move) (h : Heatmap) → IsShaped h → IsShaped (move s h)
unfolding prune
move-IsShaped (feeds c) h v =
    subst IsShaped (sym (call-feed c h))
      (feed-IsShaped (update_of c) (price_of c) (time_of c) h (update_of-Keeps c) v)
move-IsShaped (prunes now_ms) h v =
    let stale = stale_keys (now_ms - h.retention_ms) h.buckets in
    let (o, a) = remove_all-IsShaped h.cell_ms stale h.buckets v.ordered v.buckets in
    record { ordered = o; buckets = a }

move_all-IsShaped : (moves : List Move) (h : Heatmap) → IsShaped h → IsShaped (move_all moves h)
unfolding move_all
move_all-IsShaped [] h v = v
move_all-IsShaped (s ∷ moves) h v = move_all-IsShaped moves (move s h) (move-IsShaped s h v)

-- From a new heatmap, after any calls that feed it and prunings, in any order: the buckets ascend by their start, which is
-- a multiple of the cell width; in each bucket the cells ascend by price, and each cell carries its price and its bucket's start,
-- its pressure is its delta, and its resting liquidity and the liquidity removed from it sum to the liquidity added to it, modulo 2^64.
pub move_all-new-IsShaped :
    (moves : List Move) (cell_ms retention_ms : ℕ)
    → IsShaped (move_all moves (Heatmap.new cell_ms retention_ms))
unfolding Heatmap.new
move_all-new-IsShaped moves cell_ms retention_ms =
    move_all-IsShaped moves (Heatmap.new cell_ms retention_ms)
      (record { ordered = tt; buckets = tt })
