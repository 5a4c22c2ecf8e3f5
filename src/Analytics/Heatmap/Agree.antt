-- ===== src/Analytics/Heatmap/Agree.antt =====
-- The digest of the heatmap against the session totals of the trade flow.
use futures_orderbook.Prelude.{ℕ, ◌+◌, ◌%◌, ◌<◌, ◌≡◌, refl, ◌∙◌, sym, ap, List, [], ◌∷◌, All, arith}
use native.Mathlib.Nat.{zero-mod}
use futures_orderbook.Prelude.Word.{u64_mod, word128_mod}
use futures_orderbook.Trades.Trade.{AggressorSide, buy, sell, TradeEvent}
use futures_orderbook.Analytics.Clusters.{add_buy, add_sell, add_delta}
use futures_orderbook.Analytics.Flow
use futures_orderbook.Analytics.Flow.{TradeFlow, FlowTotals, add_totals}
use futures_orderbook.Analytics.Flow.Profile.{on_intervals-Keeps}
use futures_orderbook.Analytics.Heatmap
use futures_orderbook.Analytics.Heatmap.{
  HeatmapCell, Heatmap, add_trade, add_large, set_resting, count_sweep, count_absorption,
  count_replenishment,
}
use futures_orderbook.Analytics.Heatmap.Digest.{HeatmapDigest, digest}
use futures_orderbook.Analytics.Heatmap.Calls.{
  Call, trade, large, level, sweep, absorption, replenishment, feed_all, flow_call, flow_all,
  IsWord, sweeps, absorptions, replenishments, large_volume, amounts,
}
use futures_orderbook.Analytics.Heatmap.Totals.{IsMeasure}
use futures_orderbook.Analytics.Heatmap.Sums.{IsField}
use futures_orderbook.Analytics.Heatmap.Counted.{Adds, Shift, shift64, shift128, digest_count}
use futures_orderbook.Analytics.Heatmap.Measures.{
  bought_by, sold_by, net_of, one_by, trade_amount, executed_buy_volume-Adds,
  executed_sell_volume-Adds, trade_count-Adds, delta-Adds, pressure-Adds,
}
use futures_orderbook.Analytics.Heatmap.Candidates.{
  large_trade_volume-Adds, sweep_count-Adds, absorption_candidate_count-Adds,
  replenishment_count-Adds,
}

-- A total of the flow is the sum of what the trades add to it.
module _ (m : ℕ) (total : FlowTotals → ℕ) (by : AggressorSide → ℕ → ℕ)
    (adds : (trade : TradeEvent) (t : FlowTotals) (n : ℕ)
      → trade.quantity_ticks < u64_mod
      → total t ≡ n % m
      → total (add_totals trade t) ≡ (n + by trade.aggressor trade.quantity_ticks) % m) where
  flow_call-total :
      (c : Call) (f : TradeFlow) (n : ℕ)
      → IsWord c
      → total f.totals ≡ n % m
      → total (flow_call c f).totals ≡ (n + trade_amount by c) % m
  unfolding Flow.on_trade
  flow_call-total (trade t) f n w e =
      let next = record f {
        totals = add_totals t f.totals;
        volume_by_price = Flow.add_profile t f.volume_by_price;
      } in
      ap total (on_intervals-Keeps t f.intervals next).0 ∙ adds t f.totals n w e
  flow_call-total (large t) f n w e = let z : n ≡ n + 0 = omega arith in e ∙ ap (λ k. k % m) z
  flow_call-total (level c ts) f n w e = let z : n ≡ n + 0 = omega arith in e ∙ ap (λ k. k % m) z
  flow_call-total (sweep p ts) f n w e = let z : n ≡ n + 0 = omega arith in e ∙ ap (λ k. k % m) z
  flow_call-total (absorption p ts) f n w e =
      let z : n ≡ n + 0 = omega arith in e ∙ ap (λ k. k % m) z
  flow_call-total (replenishment p ts) f n w e =
      let z : n ≡ n + 0 = omega arith in e ∙ ap (λ k. k % m) z

  flow_all-total :
      (calls : List Call) (f : TradeFlow) (n : ℕ)
      → All IsWord calls
      → total f.totals ≡ n % m
      → total (flow_all calls f).totals ≡ (n + amounts (trade_amount by) calls) % m
  unfolding flow_all
  flow_all-total [] f n w e = let z : n ≡ n + 0 = omega arith in e ∙ ap (λ k. k % m) z
  flow_all-total (c ∷ calls) f n w e =
      let q = trade_amount by c in
      let z : n + q + amounts (trade_amount by) calls ≡ n + (q + amounts (trade_amount by) calls) =
        omega arith in
      flow_all-total calls (flow_call c f) (n + q) w.1 (flow_call-total c f n w.0 e)
      ∙ ap (λ k. k % m) z

  -- A field of the digest and the total of the flow that is the same sum.
  field_agrees :
      (shift : Shift m) (measure : HeatmapCell → ℕ) (field : HeatmapDigest → ℕ)
      → IsMeasure measure
      → Adds m measure (trade_amount by)
      → IsField m field measure
      → (cell_ms retention_ms : ℕ) (calls : List Call) (f : TradeFlow) → All IsWord calls
      → total f.totals ≡ 0
      → field (digest (feed_all calls (Heatmap.new cell_ms retention_ms)))
        ≡ total (flow_all calls f).totals
  field_agrees shift measure field is grows fi cell_ms retention_ms calls f words e =
      let n = amounts (trade_amount by) calls in
      let z : 0 + n ≡ n = omega arith in
      digest_count m shift measure (trade_amount by) is grows field calls cell_ms retention_ms fi
        words
      ∙ ap (λ k. k % m) (sym z)
      ∙ sym (flow_all-total calls f 0 words (e ∙ sym (zero-mod m)))

-- The digest `d` of a heatmap that was fed by the calls, and the totals `t` of the flow.
pub record Agrees (calls : List Call) (d : HeatmapDigest) (t : FlowTotals) : Type 0 where
  pub bought : d.total_executed_buy ≡ t.buy_volume
  pub sold : d.total_executed_sell ≡ t.sell_volume
  pub trades : d.total_trade_count ≡ t.trade_count
  pub delta : d.total_delta ≡ t.cvd
  pub pressure : d.total_pressure ≡ t.cvd
  pub large : d.total_large_trade_volume ≡ amounts large_volume calls % u64_mod
  pub sweeps : d.total_sweep_count ≡ amounts sweeps calls % u64_mod
  pub absorptions : d.total_absorption_candidate_count ≡ amounts absorptions calls % u64_mod
  pub replenishments : d.total_replenishment_count ≡ amounts replenishments calls % u64_mod

-- The sums in the flow.
bought_total :
    (side : AggressorSide) (qty v n : ℕ)
    → v ≡ n % u64_mod
    → add_buy side qty v ≡ (n + bought_by side qty) % u64_mod
bought_total buy qty v n e = omega (arith, e)
bought_total sell qty v n e = omega (arith, e)

sold_total :
    (side : AggressorSide) (qty v n : ℕ)
    → v ≡ n % u64_mod
    → add_sell side qty v ≡ (n + sold_by side qty) % u64_mod
sold_total buy qty v n e = omega (arith, e)
sold_total sell qty v n e = omega (arith, e)

net_total :
    (side : AggressorSide) (qty d n : ℕ)
    → qty < u64_mod
    → d ≡ n % word128_mod
    → add_delta side qty d ≡ (n + net_of side qty) % word128_mod
net_total buy qty d n w e = omega (arith, e)
net_total sell qty d n w e = omega (arith, e, w)

positive64 : 0 < u64_mod
positive64 = omega arith

positive128 : 0 < word128_mod
positive128 = omega arith

-- For any list of calls, in any order, with trade quantities below 2^64, that feed a new heatmap, and whose trades feed a new flow, whatever
-- the retention, and whatever the cell width and the intervals, if none of them is 0: the digest's executed buy and sell volumes and its trade count equal the flow's session totals, its delta and its pressure both equal the flow's cumulative delta,
-- and its large volume and its counts of sweeps, absorptions and replenishments are those of the calls, modulo 2^64.
pub digest-Agrees :
    (calls : List Call) (cell_ms retention_ms flow_retention_ms : ℕ) (intervals : List ℕ)
    → 0 < cell_ms
    → All (λ interval. 0 < interval) intervals
    → All IsWord calls
    → Agrees calls
        (digest (feed_all calls (Heatmap.new cell_ms retention_ms)))
        (flow_all calls (Flow.new intervals flow_retention_ms)).totals
unfolding Flow.new
digest-Agrees calls cell_ms retention_ms flow_retention_ms intervals wide long words =
    let flow = Flow.new intervals flow_retention_ms in
    record {
      bought =
          field_agrees u64_mod (λ t. t.buy_volume) bought_by
            (λ t f n w e. bought_total t.aggressor t.quantity_ticks f.buy_volume n e) shift64
            (λ c. c.executed_buy_volume) (λ d. d.total_executed_buy)
            (record { fresh = λ p. refl; placed = λ c a p. refl }) executed_buy_volume-Adds
            (record {
              positive = positive64;
              start = refl;
              cell = λ c d. refl;
              bucket = λ d n. refl;
            })
            cell_ms retention_ms calls flow words refl;
      sold =
          field_agrees u64_mod (λ t. t.sell_volume) sold_by
            (λ t f n w e. sold_total t.aggressor t.quantity_ticks f.sell_volume n e) shift64
            (λ c. c.executed_sell_volume) (λ d. d.total_executed_sell)
            (record { fresh = λ p. refl; placed = λ c a p. refl }) executed_sell_volume-Adds
            (record {
              positive = positive64;
              start = refl;
              cell = λ c d. refl;
              bucket = λ d n. refl;
            })
            cell_ms retention_ms calls flow words refl;
      trades =
          field_agrees u64_mod (λ t. t.trade_count) one_by (λ t f n w e. omega (arith, e)) shift64
            (λ c. c.trade_count) (λ d. d.total_trade_count)
            (record { fresh = λ p. refl; placed = λ c a p. refl }) trade_count-Adds
            (record {
              positive = positive64;
              start = refl;
              cell = λ c d. refl;
              bucket = λ d n. refl;
            })
            cell_ms retention_ms calls flow words refl;
      delta =
          field_agrees word128_mod (λ t. t.cvd) net_of
            (λ t f n w e. net_total t.aggressor t.quantity_ticks f.cvd n w e) shift128
            (λ c. c.delta) (λ d. d.total_delta)
            (record { fresh = λ p. refl; placed = λ c a p. refl }) delta-Adds
            (record {
              positive = positive128;
              start = refl;
              cell = λ c d. refl;
              bucket = λ d n. refl;
            })
            cell_ms retention_ms calls flow words refl;
      pressure =
          field_agrees word128_mod (λ t. t.cvd) net_of
            (λ t f n w e. net_total t.aggressor t.quantity_ticks f.cvd n w e) shift128
            (λ c. c.pressure) (λ d. d.total_pressure)
            (record { fresh = λ p. refl; placed = λ c a p. refl }) pressure-Adds
            (record {
              positive = positive128;
              start = refl;
              cell = λ c d. refl;
              bucket = λ d n. refl;
            })
            cell_ms retention_ms calls flow words refl;
      large =
          digest_count u64_mod shift64 (λ c. c.large_trade_volume) large_volume
            (record { fresh = λ p. refl; placed = λ c a p. refl }) large_trade_volume-Adds
            (λ d. d.total_large_trade_volume) calls cell_ms retention_ms
            (record {
              positive = positive64;
              start = refl;
              cell = λ c d. refl;
              bucket = λ d n. refl;
            })
            words;
      sweeps =
          digest_count u64_mod shift64 (λ c. c.sweep_count) sweeps
            (record { fresh = λ p. refl; placed = λ c a p. refl }) sweep_count-Adds
            (λ d. d.total_sweep_count) calls cell_ms retention_ms
            (record {
              positive = positive64;
              start = refl;
              cell = λ c d. refl;
              bucket = λ d n. refl;
            })
            words;
      absorptions =
          digest_count u64_mod shift64 (λ c. c.absorption_candidate_count) absorptions
            (record { fresh = λ p. refl; placed = λ c a p. refl }) absorption_candidate_count-Adds
            (λ d. d.total_absorption_candidate_count) calls cell_ms retention_ms
            (record {
              positive = positive64;
              start = refl;
              cell = λ c d. refl;
              bucket = λ d n. refl;
            })
            words;
      replenishments =
          digest_count u64_mod shift64 (λ c. c.replenishment_count) replenishments
            (record { fresh = λ p. refl; placed = λ c a p. refl }) replenishment_count-Adds
            (λ d. d.total_replenishment_count) calls cell_ms retention_ms
            (record {
              positive = positive64;
              start = refl;
              cell = λ c d. refl;
              bucket = λ d n. refl;
            })
            words;
    }
