-- ===== src/Analytics/Engine/Traded.antt =====
-- A trade keeps the history of the engine.
use futures_orderbook.Prelude.{
  ℕ, ◌<◌, ◌≡◌, sym, subst, ◌++◌, not, ◌&&◌, Option, none, some, if-elim, arith,
}
use futures_orderbook.Prelude.Word.{u64_mod}
use futures_orderbook.Level.Floats.{F64}
use futures_orderbook.Trades.Trade.{TradeEvent}
use futures_orderbook.Analytics.Shadow.{is_crossed}
use futures_orderbook.Analytics.Flow
use futures_orderbook.Analytics.Flow.{FlowTotals, TradeFlow, add_totals, record_large_trade}
use futures_orderbook.Analytics.Flow.Profile.{on_intervals-Keeps}
use futures_orderbook.Analytics.LargeTrades.{LargeTradeDetector, check}
use futures_orderbook.Analytics.Clusters
use futures_orderbook.Analytics.Clusters.{
  TradeCluster, ClusterTracker, add_buy, add_sell, add_delta,
}
use futures_orderbook.Analytics.Sweeps.{SweepDetector, on_cluster}
use futures_orderbook.Analytics.Absorption
use futures_orderbook.Analytics.Absorption.{
  AbsorptionDetector, on_liquidity_change, on_opposing_liquidity,
}
use futures_orderbook.Analytics.Derived.{AnalyticsEvent}
use futures_orderbook.Analytics.Engine.{Turn, push_event}
use futures_orderbook.Analytics.Engine.Trading.{
  trade_event, count_trade, on_large, on_swept, on_clustered, on_absorbed, context, absorb_at,
  absorb_trade, on_trade,
}
use futures_orderbook.Analytics.Engine.Ledger.{
  ledger, Snaps, total, IsHistory, with_large, with_swept, with_absorbed,
}
use futures_orderbook.Analytics.Engine.Counted.{
  both_volume, both_bought, both_sold, both_delta, Counts, check-Counts, on_cluster-Counts,
  absorb-Counts,
}
use futures_orderbook.Analytics.Engine.Booked.{Holds, finalize-Holds}

on_trade-totals :
    (event : TradeEvent) (f : TradeFlow)
    → (Flow.on_trade event f).0.totals ≡ add_totals event f.totals
unfolding Flow.on_trade
on_trade-totals event f = (on_intervals-Keeps event f.intervals _).0

module _ (fl : F64) (before : Snaps fl.Float) where
  open fl use {Float}

  count_trade-Holds :
      (event : TradeEvent) (t : Turn Float)
      → event.quantity_ticks < u64_mod
      → Holds fl before t
      → Holds fl before (record t { engine = count_trade fl event t.engine })
  unfolding count_trade
  count_trade-Holds event t w h =
      let e = t.engine in
      let ss = before ++ t.out.snapshots in
      let a = event.aggressor in
      let q = event.quantity_ticks in
      let next = ledger (count_trade fl event e) in
      subst
        (λ (s : FlowTotals).
          IsHistory ss
            (record next { all_bought = s.buy_volume; all_sold = s.sell_volume; cvd = s.cvd }))
        (sym (on_trade-totals event e.flow))
        (record {
          volume =
              both_volume a q (total (λ s. s.trade_volume) ss) e.trade_volume
                e.flow.totals.buy_volume e.flow.totals.sell_volume h.volume;
          bought =
              both_bought a q (total (λ s. s.buy_volume) ss) e.buy_volume e.flow.totals.buy_volume
                h.bought;
          sold =
              both_sold a q (total (λ s. s.sell_volume) ss) e.sell_volume e.flow.totals.sell_volume
                h.sold;
          delta = both_delta a q (total (λ s. s.delta) ss) e.delta e.flow.totals.cvd w h.delta;
          large = h.large;
          swept = h.swept;
          absorbed = h.absorbed;
          filled = h.filled;
          cvd = h.cvd;
          spaced = h.spaced;
          last = h.last;
        })

  on_large-Holds :
      (event : TradeEvent) (d : LargeTradeDetector) (o : Option AnalyticsEvent) (t : Turn Float)
      → Counts t.engine.large_trades.count d.count o
      → Holds fl before t
      → Holds fl before (on_large fl event (d, o) t)
  unfolding record_large_trade
  on_large-Holds event d none t c h =
      with_large _ _ h t.engine.large_trade_count d.count (omega (arith, h.large, c))
  on_large-Holds event d (some ev) t c h = with_large _ _ h _ d.count (omega (arith, h.large, c))

  on_swept-Holds :
      (d : SweepDetector Float) (o : Option AnalyticsEvent) (t : Turn Float)
      → Counts t.engine.sweeps.count d.count o
      → Holds fl before t
      → Holds fl before (on_swept fl (d, o) t)
  on_swept-Holds d none t c h =
      with_swept _ _ h t.engine.sweep_candidate_count d.count (omega (arith, h.swept, c))
  on_swept-Holds d (some ev) t c h = with_swept _ _ h _ d.count (omega (arith, h.swept, c))

  on_clustered-Holds :
      (event : TradeEvent) (tracker : ClusterTracker Float) (o : Option (TradeCluster Float))
      (t : Turn Float)
      → Holds fl before t
      → Holds fl before (on_clustered fl event (tracker, o) t)
  on_clustered-Holds event tracker none t h = h
  on_clustered-Holds event tracker (some c) t h =
      let (d, o) = on_cluster fl c t.engine.sweeps in
      on_swept-Holds d o _ (on_cluster-Counts fl c t.engine.sweeps) h

  on_absorbed-Holds :
      (d : AbsorptionDetector Float) (o : Option AnalyticsEvent) (t : Turn Float)
      → Counts t.engine.absorption.count d.count o
      → Holds fl before t
      → Holds fl before (on_absorbed fl (d, o) t)
  on_absorbed-Holds d none t c h =
      with_absorbed _ _ h t.engine.absorption_candidate_count d.count (omega (arith, h.absorbed, c))
  on_absorbed-Holds d (some ev) t c h = with_absorbed _ _ h _ d.count (omega (arith, h.absorbed, c))

  absorb_at-Holds :
      (event : TradeEvent) (best : Option ℕ) (opposing : ℕ) (t : Turn Float)
      → Holds fl before t
      → Holds fl before (absorb_at fl event (best, opposing) t)
  absorb_at-Holds event none opposing t h = h
  absorb_at-Holds event (some best) opposing t h =
      let (d, o) = Absorption.on_trade fl event best opposing t.engine.absorption in
      on_absorbed-Holds d o t (absorb-Counts fl event best opposing t.engine.absorption) h

  absorb_trade-Holds :
      (event : TradeEvent) (t : Turn Float)
      → Holds fl before t
      → Holds fl before (absorb_trade fl event t)
  unfolding absorb_trade
  absorb_trade-Holds event t h =
      let b = t.engine.book in
      let (best, opposing) = context fl event.aggressor t.engine.cfg.imbalance_depth b in
      if-elim (Holds fl before) (b.ready && not (is_crossed b)) _ _
        (λ _. absorb_at-Holds event best opposing t h) (λ _. h)

  pub on_trade-Holds :
      (event : TradeEvent) (t : Turn Float)
      → event.quantity_ticks < u64_mod
      → Holds fl before t
      → Holds fl before (on_trade fl event t)
  unfolding on_trade
  on_trade-Holds event t w h =
      let counted =
        push_event (trade_event fl event) (record t { engine = count_trade fl event t.engine }) in
      let (d, o) = check event counted.engine.large_trades in
      let large = on_large fl event (d, o) counted in
      let (tracker, closed) = Clusters.on_trade fl event large.engine.clusters in
      let clustered = on_clustered fl event (tracker, closed) large in
      finalize-Holds fl before event.trade_time (absorb_trade fl event clustered) (
        absorb_trade-Holds event clustered (
          on_clustered-Holds event tracker closed large (
            on_large-Holds event d o counted (check-Counts event counted.engine.large_trades)
              (count_trade-Holds event t w h))))
