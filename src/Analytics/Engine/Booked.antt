-- ===== src/Analytics/Engine/Booked.antt =====
-- A snapshot, and the events of the book, keep the history of the engine.
use futures_orderbook.Prelude.{
  ℕ, ◌≡◌, refl, sym, subst, max, List, [], ◌∷◌, ◌++◌, true, not, Option, none, some, ltb, if-elim,
  arith,
}
use mathlib.Core.List.{append_assoc}
use futures_orderbook.Level.Floats.{F64}
use futures_orderbook.Analytics.Shadow.{LevelChange, apply_snapshot, is_crossed, unwrap_or_zero}
use futures_orderbook.Analytics.Liquidity
use futures_orderbook.Analytics.Liquidity.{clear, reset_interval}
use futures_orderbook.Analytics.Absorption.{
  AbsorptionDetector, on_liquidity_change, on_opposing_liquidity,
}
use futures_orderbook.Analytics.Heatmap
use futures_orderbook.Analytics.Engine.{
  Turn, needs_snapshot, snapshot_of, build_snapshot, maybe_finalize_snapshot, reset_counters,
}
use futures_orderbook.Analytics.Engine.Updates.{
  on_snapshot, absorb_change, count_replenishments, on_change, on_changes, mark_crossed,
  note_crossed,
}
use futures_orderbook.Analytics.Engine.Ledger.{
  ledger, Snaps, total-push, Runs-push, Later, Spaced-push, last_ts-push, IsHistory, with_absorbed,
  with_filled,
}
use futures_orderbook.Analytics.Engine.Counted.{on_level_change-fills, count_replenishments-Fills}

-- A snapshot is due at the first event, or an interval after the last one.
needs-Later :
    (interval ts : ℕ) (last : Option ℕ)
    → needs_snapshot (max interval 1) ts last ≡ true
    → Later (max interval 1) ts last
needs-Later interval ts none e = tt
needs-Later interval ts (some last) e = ground (arith, e)

module _ (fl : F64) where
  open fl use {Float}

  -- The history so far: the snapshots of earlier events, and those of this one.
  abbrev pub Holds : Snaps Float → Turn Float → Type 0
  Holds before t = IsHistory (before ++ t.out.snapshots) (ledger t.engine)

  module _ (before : Snaps Float) where
    pub finalize-Holds :
        (ts : ℕ) (t : Turn Float) → Holds before t → Holds before (maybe_finalize_snapshot fl ts t)
    unfolding maybe_finalize_snapshot build_snapshot reset_interval
    finalize-Holds ts t h =
        let e = t.engine in
        let ss = before ++ t.out.snapshots in
        let snap = snapshot_of fl ts e in
        let interval = max e.cfg.snapshot_interval_ms 1 in
        if-elim (Holds before) (needs_snapshot interval ts e.last_snapshot_ts) _ _
          (λ due.
            subst
              (λ (l : Snaps Float).
                IsHistory l (record (ledger (reset_counters e)) { last = some ts }))
              (append_assoc before t.out.snapshots (snap ∷ []))
              (record {
                volume = omega (arith, h.volume, total-push (λ s. s.trade_volume) ss snap);
                bought = omega (arith, h.bought, total-push (λ s. s.buy_volume) ss snap);
                sold = omega (arith, h.sold, total-push (λ s. s.sell_volume) ss snap);
                delta = omega (arith, h.delta, total-push (λ s. s.delta) ss snap);
                large = omega (arith, h.large, total-push (λ s. s.large_trade_count) ss snap);
                swept = omega (arith, h.swept, total-push (λ s. s.sweep_candidate_count) ss snap);
                absorbed =
                    omega
                      (arith, h.absorbed, total-push (λ s. s.absorption_candidate_count) ss snap);
                filled = omega (arith, h.filled, total-push (λ s. s.replenishment_count) ss snap);
                cvd = Runs-push 0 ss snap h.cvd (omega (arith, h.delta));
                spaced = Spaced-push interval ss snap h.spaced (
                    subst (Later interval ts) (sym h.last)
                      (needs-Later e.cfg.snapshot_interval_ms ts e.last_snapshot_ts due));
                last = last_ts-push ss snap;
              }))
          (λ _. h)

    pub on_snapshot-Holds :
        (symbol : _) (update_id : ℕ) (bids asks : List (ℕ × ℕ)) (t : Turn Float)
        → Holds before t
        → Holds before (on_snapshot fl symbol update_id bids asks t)
    unfolding on_snapshot clear
    on_snapshot-Holds symbol update_id bids asks t h =
        if-elim (Holds before) (is_crossed (apply_snapshot bids asks update_id t.engine.book)) _ _
          (λ _. h) (λ _. h)

    pub note_crossed-Holds :
        (symbol : _) (update_id : ℕ) (t : Turn Float)
        → Holds before t
        → Holds before (note_crossed fl symbol update_id t)
    unfolding note_crossed
    note_crossed-Holds symbol update_id t h =
        if-elim (Holds before) (is_crossed t.engine.book) _ _
          (λ _.
            if-elim (λ (u : Turn Float). Holds before (mark_crossed fl true u))
              (not t.engine.book_crossed) _ _ (λ _. h) (λ _. h))
          (λ _. h)

    absorb_change-count :
        (c : LevelChange) (ts : ℕ) (d : AbsorptionDetector Float)
        → (absorb_change fl c ts d).count ≡ d.count
    unfolding on_liquidity_change on_opposing_liquidity
    absorb_change-count c ts d =
        if-elim (λ (x : AbsorptionDetector Float). x.count ≡ d.count)
          (ltb (unwrap_or_zero c.old_qty) c.new_qty) _ _ (λ _. refl) (λ _. refl)

    on_change-Holds :
        (ts : ℕ) (c : LevelChange) (t : Turn Float)
        → Holds before t
        → Holds before (on_change fl ts c t)
    unfolding on_change
    on_change-Holds ts c t h =
        let e = t.engine in
        let ss = before ++ t.out.snapshots in
        let (liquidity, evs) = Liquidity.on_level_change c ts e.liquidity in
        let d = absorb_change fl c ts e.absorption in
        let fed = record e {
          liquidity = liquidity;
          heatmap = Heatmap.on_level_change c ts e.heatmap;
          absorption = d;
        } in
        let f = count_replenishments fl evs fed in
        let (same, filled, _) = count_replenishments-Fills fl evs fed in
        let one =
          with_absorbed ss (ledger e) h e.absorption_candidate_count d.count
            (omega (arith, h.absorbed, absorb_change-count c ts e.absorption)) in
        let two =
          with_filled ss _ one f.replenishment_count liquidity.replenishment_count
            (omega (arith, h.filled, filled, on_level_change-fills c ts e.liquidity)) in
        subst (IsHistory ss) (sym same) two

    pub on_changes-Holds :
        (ts : ℕ) (changes : List LevelChange) (t : Turn Float)
        → Holds before t
        → Holds before (on_changes fl ts changes t)
    unfolding on_changes
    on_changes-Holds ts [] t h = h
    on_changes-Holds ts (c ∷ changes) t h =
        on_changes-Holds ts changes (on_change fl ts c t) (on_change-Holds ts c t h)
