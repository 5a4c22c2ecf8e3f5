-- ===== src/Analytics/Engine/Updates.antt =====
-- src/analytics/engine.rs, `process_event`: the arms of a snapshot and of an update of the book.
use futures_orderbook.Prelude.{
  ℕ, String, List, [], ◌∷◌, ◌++◌, Bool, true, false, not, Option, none, some, ltb, if◌then◌else◌,
}
use futures_orderbook.Prelude.Word.{add64}
use futures_orderbook.Level.Floats.{F64}
use futures_orderbook.Analytics.Shadow.{LevelChange, apply_snapshot, is_crossed, unwrap_or_zero}
use futures_orderbook.Analytics.Liquidity
use futures_orderbook.Analytics.Liquidity.{LiquidityTracker, clear, reset_interval}
use futures_orderbook.Analytics.Absorption.{
  AbsorptionDetector, on_liquidity_change, on_opposing_liquidity,
}
use futures_orderbook.Analytics.Heatmap
use futures_orderbook.Analytics.Heatmap.{
  Heatmap, on_large_trade, on_sweep, on_absorption, on_replenishment,
}
use futures_orderbook.Analytics.Derived.{AnalyticsEvent}
use futures_orderbook.Analytics.Engine.{AnalyticsEngine, Turn, is_replenishment, report_crossed}

module _ (fl : F64) where
  open fl use {Float}

  unfoldable pub on_snapshot :
      (symbol : String) → (update_id : ℕ) → (bids asks : List (ℕ × ℕ)) → Turn Float → Turn Float
  on_snapshot symbol update_id bids asks t =
      let book = apply_snapshot bids asks update_id t.engine.book in
      let loaded = record t {
        engine = record t.engine {
          book = book;
          liquidity = clear t.engine.liquidity;
          book_crossed = is_crossed book;
        };
      } in
      if is_crossed book
      then report_crossed update_id symbol "crossed book after snapshot" loaded
      else loaded

  abbrev pub count_replenishment :
      Bool → Option ℕ → ℕ → AnalyticsEngine Float → AnalyticsEngine Float
  count_replenishment true (some price) ts e = record e {
    heatmap = on_replenishment price ts e.heatmap;
    replenishment_count = add64 e.replenishment_count 1;
  }
  count_replenishment true none ts e = e
  count_replenishment false price ts e = e

  -- The loop over the events of a change.
  unfoldable pub count_replenishments :
      List AnalyticsEvent → AnalyticsEngine Float → AnalyticsEngine Float
  count_replenishments [] e = e
  count_replenishments (ev ∷ evs) e =
      count_replenishments evs (count_replenishment (is_replenishment ev.kind) ev.price ev.ts_ms e)

  abbrev pub absorb_change : LevelChange → ℕ → AbsorptionDetector Float → AbsorptionDetector Float
  absorb_change c ts d =
      let filled =
        if ltb (unwrap_or_zero c.old_qty) c.new_qty
        then on_liquidity_change fl c.price c.new_qty ts d
        else d in
      on_opposing_liquidity fl c.price c.new_qty ts filled

  unfoldable pub on_change : ℕ → LevelChange → Turn Float → Turn Float
  on_change ts c t =
      let e = t.engine in
      let (liquidity, evs) = Liquidity.on_level_change c ts e.liquidity in
      let fed = record e {
        liquidity = liquidity;
        heatmap = Heatmap.on_level_change c ts e.heatmap;
        absorption = absorb_change c ts e.absorption;
      } in
      record {
        engine = count_replenishments evs fed;
        out = record t.out { events = t.out.events ++ evs };
      }

  unfoldable pub on_changes : ℕ → List LevelChange → Turn Float → Turn Float
  on_changes ts [] t = t
  on_changes ts (c ∷ changes) t = on_changes ts changes (on_change ts c t)

  abbrev pub mark_crossed : Bool → Turn Float → Turn Float
  mark_crossed crossed t = record t { engine = record t.engine { book_crossed = crossed } }

  unfoldable pub note_crossed : (symbol : String) → (update_id : ℕ) → Turn Float → Turn Float
  note_crossed symbol update_id t =
      if is_crossed t.engine.book
      then mark_crossed true (
          if not t.engine.book_crossed
          then report_crossed update_id symbol "crossed book after update" t
          else t)
      else mark_crossed false t
