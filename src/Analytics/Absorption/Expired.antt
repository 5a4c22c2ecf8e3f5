-- ===== src/Analytics/Absorption/Expired.antt =====
-- A trade that finds the window of its price expired is counted in no window.
use futures_orderbook.Prelude.{
  ℕ, ◌-◌, ◌<◌, ◌≡◌, refl, sym, subst, Option, none, some, ◌==◌, ltb, if◌then◌else◌, if-elim, arith,
}
use futures_orderbook.TreeMap.{get, remove, IsOrdered}
use futures_orderbook.TreeMap.Laws.{get-remove}
use futures_orderbook.Level.Floats.{F64}
use futures_orderbook.Trades.Trade.{TradeEvent}
use futures_orderbook.Analytics.Derived.{AnalyticsEvent}
use futures_orderbook.Analytics.Absorption.{
  AbsorptionWindow, AbsorptionDetector, rejected, confidence, event_of, evaluate, on_window,
  on_trade,
}

module _ (fl : F64) where
  open fl use {Float, lt}

  -- If there is an event, it has the volume and the end of the window.
  abbrev pub Tells : AbsorptionWindow → Option AnalyticsEvent → Type 0
  Tells w none = Unit
  Tells w (some e) = (e.quantity ≡ w.aggressive_volume) × (e.ts_ms ≡ w.close_ms)

  evaluate-Tells :
      (w : AbsorptionWindow) (d : AbsorptionDetector Float)
      → let (next, out) = evaluate fl w d in (next.windows ≡ d.windows) × Tells w out
  unfolding evaluate event_of
  evaluate-Tells w d =
      let P = λ (r : AbsorptionDetector Float × Option AnalyticsEvent).
        (r.0.windows ≡ d.windows) × Tells w r.1 in
      if-elim P (rejected fl d.cfg w) _ _ (λ _. (refl, tt))
        (λ _.
          if-elim P (lt (confidence fl d.cfg w) d.cfg.confidence_threshold) _ _ (λ _. (refl, tt))
            (λ _. (refl, (refl, refl))))

  -- When the window of a trade's price was opened longer ago than the configured time, the trade
  -- closes it and is lost to the detector: afterwards there is no window at that price and those of
  -- the other prices are as before, so that no window has counted the trade; and an event that is
  -- returned has the volume and the end of the old window, without the trade.
  pub on_trade_expired :
      (trade : TradeEvent) (best opposing : ℕ) (w : AbsorptionWindow) (d : AbsorptionDetector Float)
      → IsOrdered d.windows
      → get trade.price_ticks d.windows ≡ some w
      → d.cfg.absorption_window_ms < trade.trade_time - w.open_ms
      → let (next, out) = on_trade fl trade best opposing d in
        ((price : ℕ)
          → get price next.windows
            ≡ (if trade.price_ticks == price then none else get price d.windows))
        × Tells w out
  unfolding on_trade
  on_trade_expired trade best opposing w d ordered found late =
      let p = trade.price_ticks in
      let shut : AbsorptionDetector Float = record d { windows = remove p d.windows } in
      let (same, tells) = evaluate-Tells w shut in
      let old = ltb d.cfg.absorption_window_ms (trade.trade_time - w.open_ms) in
      let P = λ (r : AbsorptionDetector Float × Option AnalyticsEvent).
        ((price : ℕ) → get price r.0.windows ≡ (if p == price then none else get price d.windows))
        × Tells w r.1 in
      subst (λ o. P (on_window fl trade best opposing o d)) (sym found)
        (if-elim P old _ _
          (λ _. (
            λ price.
                subst (λ m. get price m ≡ (if p == price then none else get price d.windows))
                  (sym same) (get-remove p price d.windows 0 ordered),
            tells,
          ))
          (λ e. let wrong : ⊥ = ground (arith, e) in absurd wrong))
