-- ===== src/Analytics/Engine/Counted.antt =====
-- What one call of a part of the engine does to the counters, the session's and the interval's.
use futures_orderbook.Prelude.{
  ℕ, ◌+◌, ◌-◌, ◌≡◌, refl, ◌∙◌, ap, List, [], ◌∷◌, ◌++◌, Bool, true, false, Option, none, some, ltb,
  if-elim, arith,
}
use futures_orderbook.TreeMap.{get, remove}
use futures_orderbook.Level.Floats.{F64}
use futures_orderbook.Trades.Trade.{TradeEvent}
use futures_orderbook.Analytics.Shadow.{LevelChange, unwrap_or_zero}
use futures_orderbook.Analytics.Clusters.{TradeCluster}
use futures_orderbook.Analytics.LargeTrades.{LargeTradeDetector, check}
use futures_orderbook.Analytics.Sweeps
use futures_orderbook.Analytics.Sweeps.{SweepDetector, on_cluster, confidence}
use futures_orderbook.Analytics.Absorption
use futures_orderbook.Analytics.Absorption.{
  AbsorptionWindow, AbsorptionDetector, evaluate, on_window, on_trade,
}
use futures_orderbook.Analytics.Liquidity.{
  LiquidityChangeKind, added, removed, increased, decreased, unchanged, classify, LiquidityTracker,
  replenished, count_change, replenish, on_changed, on_level_change,
}
use futures_orderbook.Analytics.Derived.{AnalyticsEvent}
use futures_orderbook.Analytics.Engine.{AnalyticsEngine, is_replenishment}
use futures_orderbook.Analytics.Engine.Updates.{count_replenishment, count_replenishments}
use futures_orderbook.Analytics.Engine.Ledger.{Ledger, ledger, Same64}
use futures_orderbook.Prelude.{◌<◌}
use futures_orderbook.Prelude.Word.{u64_mod, add64}
use futures_orderbook.Trades.Trade.{AggressorSide, buy, sell}
use futures_orderbook.Analytics.Clusters.{add_buy, add_sell, add_delta}
use futures_orderbook.Analytics.Engine.Ledger.{Same128}

-- What a trade adds to both sides of an account.
pub both_volume :
    (a : AggressorSide) (q s v b c : ℕ)
    → Same64 (s + v) (b + c)
    → Same64 (s + add64 v q) (add_buy a q b + add_sell a q c)
both_volume buy q s v b c h = omega (arith, h)
both_volume sell q s v b c h = omega (arith, h)

pub both_bought :
    (a : AggressorSide) (q s v b : ℕ)
    → Same64 (s + v) b
    → Same64 (s + add_buy a q v) (add_buy a q b)
both_bought buy q s v b h = omega (arith, h)
both_bought sell q s v b h = h

pub both_sold :
    (a : AggressorSide) (q s v b : ℕ)
    → Same64 (s + v) b
    → Same64 (s + add_sell a q v) (add_sell a q b)
both_sold buy q s v b h = h
both_sold sell q s v b h = omega (arith, h)

pub both_delta :
    (a : AggressorSide) (q s v b : ℕ)
    → q < u64_mod
    → Same128 (s + v) b
    → Same128 (s + add_delta a q v) (add_delta a q b)
both_delta buy q s v b w h = omega (arith, h, w)
both_delta sell q s v b w h = omega (arith, h, w)

-- A detector that counts what it returns.
abbrev pub Counts : {A : Type 0} → (before after : ℕ) → Option A → Type 0
Counts before after none = after ≡ before
Counts before after (some x) = after ≡ add64 before 1

pub check-Counts :
    (trade : TradeEvent) (d : LargeTradeDetector)
    → let (next, out) = check trade d in Counts d.count next.count out
unfolding check
check-Counts trade d =
    if-elim (λ (r : LargeTradeDetector × Option AnalyticsEvent). Counts d.count r.0.count r.1)
      (ltb trade.quantity_ticks d.threshold_ticks) _ _ (λ _. refl) (λ _. refl)

-- A replenishment among the events of a change, if it has a price.
abbrev fill : Bool → Option ℕ → ℕ
fill true (some price) = 1
fill true none = 0
fill false price = 0

abbrev pub fills : List AnalyticsEvent → ℕ
fills [] = 0
fills (e ∷ es) = fill (is_replenishment e.kind) e.price + fills es

replenished-fills :
    (c : LevelChange) (ts : ℕ) (o : Option (List (ℕ × ℕ))) (t : LiquidityTracker)
    → let (u, out) = replenished c ts o t in
      Same64 u.replenishment_count (t.replenishment_count + fills out)
replenished-fills c ts none t = omega arith
replenished-fills c ts (some rest) t = omega arith

replenish-fills :
    (c : LevelChange) (ts : ℕ) (t : LiquidityTracker)
    → let (u, out) = replenish c ts t in
      Same64 u.replenishment_count (t.replenishment_count + fills out)
unfolding replenish
replenish-fills c ts t =
    if-elim
      (λ (r : LiquidityTracker × List AnalyticsEvent).
        Same64 r.0.replenishment_count (t.replenishment_count + fills r.1))
      (ltb (unwrap_or_zero c.old_qty) c.new_qty) _ _ (λ _. replenished-fills c ts _ t)
      (λ _. omega arith)

fills-append : (es fs : List AnalyticsEvent) → fills (es ++ fs) ≡ fills es + fills fs
fills-append [] fs = omega arith
fills-append (e ∷ es) fs = omega (arith, fills-append es fs)

-- After the arm of the match: the rest of the handler.
finished-fills :
    (c : LevelChange) (ts : ℕ) (t counted : LiquidityTracker) (out : List AnalyticsEvent)
    → counted.replenishment_count ≡ t.replenishment_count
    → fills out ≡ 0
    → let (filled, more) = replenish c ts counted in
      Same64 filled.replenishment_count (t.replenishment_count + fills (out ++ more))
finished-fills c ts t counted out e z =
    let (filled, more) = replenish c ts counted in
    omega (arith, e, z, fills-append out more, replenish-fills c ts counted)

on_changed-fills :
    (kind : LiquidityChangeKind) (c : LevelChange) (ts : ℕ) (t : LiquidityTracker)
    → let (u, out) = on_changed kind c ts t in
      Same64 u.replenishment_count (t.replenishment_count + fills out)
on_changed-fills unchanged c ts t = omega arith
on_changed-fills added c ts t =
    let (counted, out) = count_change added c ts t in finished-fills c ts t counted out refl refl
on_changed-fills removed c ts t =
    let (counted, out) = count_change removed c ts t in finished-fills c ts t counted out refl refl
on_changed-fills increased c ts t =
    let (counted, out) = count_change increased c ts t in
    finished-fills c ts t counted out refl refl
on_changed-fills decreased c ts t =
    let (counted, out) = count_change decreased c ts t in
    finished-fills c ts t counted out refl refl

pub on_level_change-fills :
    (c : LevelChange) (ts : ℕ) (t : LiquidityTracker)
    → let (u, out) = on_level_change c ts t in
      Same64 u.replenishment_count (t.replenishment_count + fills out)
unfolding on_level_change
on_level_change-fills c ts t = on_changed-fills (classify c.old_qty c.new_qty) c ts t

module _ (fl : F64) where
  open fl use {Float, lt}

  pub on_cluster-Counts :
      (c : TradeCluster Float) (d : SweepDetector Float)
      → let (next, out) = on_cluster fl c d in Counts d.count next.count out
  unfolding on_cluster
  on_cluster-Counts c d =
      let P = λ (r : SweepDetector Float × Option AnalyticsEvent). Counts d.count r.0.count r.1 in
      if-elim P (Sweeps.rejected fl d.cfg c) _ _ (λ _. refl)
        (λ _.
          if-elim P (lt (confidence fl d.cfg c) d.cfg.confidence_threshold) _ _ (λ _. refl)
            (λ _. refl))

  evaluate-Counts :
      (w : AbsorptionWindow) (d : AbsorptionDetector Float)
      → let (next, out) = evaluate fl w d in Counts d.count next.count out
  unfolding evaluate
  evaluate-Counts w d =
      let P =
        λ (r : AbsorptionDetector Float × Option AnalyticsEvent). Counts d.count r.0.count r.1 in
      if-elim P (Absorption.rejected fl d.cfg w) _ _ (λ _. refl)
        (λ _.
          if-elim P (lt (Absorption.confidence fl d.cfg w) d.cfg.confidence_threshold) _ _
            (λ _. refl) (λ _. refl))

  on_window-Counts :
      (trade : TradeEvent) (best opposing : ℕ) (o : Option AbsorptionWindow)
      (d : AbsorptionDetector Float)
      → let (next, out) = on_window fl trade best opposing o d in Counts d.count next.count out
  on_window-Counts trade best opposing none d = refl
  on_window-Counts trade best opposing (some w) d =
      if-elim
        (λ (r : AbsorptionDetector Float × Option AnalyticsEvent). Counts d.count r.0.count r.1)
        (ltb d.cfg.absorption_window_ms (trade.trade_time - w.open_ms)) _ _
        (λ _. evaluate-Counts w (record d { windows = remove trade.price_ticks d.windows }))
        (λ _. refl)

  pub absorb-Counts :
      (trade : TradeEvent) (best opposing : ℕ) (d : AbsorptionDetector Float)
      → let (next, out) = on_trade fl trade best opposing d in Counts d.count next.count out
  unfolding on_trade
  absorb-Counts trade best opposing d =
      on_window-Counts trade best opposing (get trade.price_ticks d.windows) d

  -- What the loop over the events of a change leaves: all but the count of replenishments.
  abbrev pub Fills : ℕ → AnalyticsEngine Float → AnalyticsEngine Float → Type 0
  Fills n e f =
      (ledger f ≡ record (ledger e) { filled = f.replenishment_count })
      × Same64 f.replenishment_count (e.replenishment_count + n)
      × (f.book ≡ e.book)

  count_replenishment-Fills :
      (b : Bool) (price : Option ℕ) (ts : ℕ) (e : AnalyticsEngine Float)
      → Fills (fill b price) e (count_replenishment fl b price ts e)
  count_replenishment-Fills true (some price) ts e = (refl, omega arith, refl)
  count_replenishment-Fills true none ts e = (refl, omega arith, refl)
  count_replenishment-Fills false price ts e = (refl, omega arith, refl)

  pub count_replenishments-Fills :
      (evs : List AnalyticsEvent) (e : AnalyticsEngine Float)
      → Fills (fills evs) e (count_replenishments fl evs e)
  unfolding count_replenishments
  count_replenishments-Fills [] e = (refl, omega arith, refl)
  count_replenishments-Fills (ev ∷ evs) e =
      let f = count_replenishment fl (is_replenishment ev.kind) ev.price ev.ts_ms e in
      let (same, filled, book) =
        count_replenishment-Fills (is_replenishment ev.kind) ev.price ev.ts_ms e in
      let (same_rest, filled_rest, book_rest) = count_replenishments-Fills evs f in
      let g = count_replenishments fl evs f in
      (
        same_rest ∙ ap (λ (l : Ledger). record l { filled = g.replenishment_count }) same,
        omega (arith, filled, filled_rest),
        book_rest ∙ book,
      )
