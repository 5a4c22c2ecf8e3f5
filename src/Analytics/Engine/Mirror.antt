-- ===== src/Analytics/Engine/Mirror.antt =====
-- The engine's shadow book, fed the events that the driver sends, holds the levels of the live book.
use futures_orderbook.Prelude.{
  ℕ, String, ◌≡◌, refl, sym, ◌∙◌, subst, List, [], ◌∷◌, map, true, not, some, max, if-elim, ok,
}
use futures_orderbook.Binance.{DepthUpdate}
use futures_orderbook.Events.{order_book_snapshot}
use futures_orderbook.Level.Floats.{F64}
use futures_orderbook.Book.Defs.{OrderBook}
use futures_orderbook.Book.Valid.{IsValid}
use futures_orderbook.Book.Apply.{apply_depth_update}
use futures_orderbook.Book.View.{snapshot}
use futures_orderbook.Engine.Defs.{change_of, pairs, updated_event}
use futures_orderbook.Analytics.Shadow.{
  ShadowBook, LevelChange, apply_snapshot, apply_update, is_crossed, record_crossed,
}
use futures_orderbook.Analytics.Liquidity
use futures_orderbook.Analytics.Heatmap
use futures_orderbook.Analytics.Follow.{Mirrors, apply_update_follows, apply_snapshot_follows}
use futures_orderbook.Analytics.Engine.{
  AnalyticsEngine, Turn, needs_snapshot, build_snapshot, maybe_finalize_snapshot,
}
use futures_orderbook.Analytics.Engine.Updates.{
  on_snapshot, absorb_change, on_change, on_changes, mark_crossed, note_crossed,
}
use futures_orderbook.Analytics.Engine.Process.{on_update, dispatch, prune, process_event}
use futures_orderbook.Analytics.Engine.Counted.{count_replenishments-Fills}

-- A book that differs at most in the count of crossings.
abbrev Shows : ShadowBook → ShadowBook → Type 0
Shows b c =
    (c.bids ≡ b.bids)
    × (c.asks ≡ b.asks)
    × (c.last_update_id ≡ b.last_update_id)
    × (c.ready ≡ b.ready)

module _ (fl : F64) where
  open fl use {Float}

  on_changes-book :
      (ts : ℕ) (changes : List LevelChange) (t : Turn Float)
      → (on_changes fl ts changes t).engine.book ≡ t.engine.book
  unfolding on_changes on_change
  on_changes-book ts [] t = refl
  on_changes-book ts (c ∷ changes) t =
      let e = t.engine in
      let (liquidity, evs) = Liquidity.on_level_change c ts e.liquidity in
      let fed = record e {
        liquidity = liquidity;
        heatmap = Heatmap.on_level_change c ts e.heatmap;
        absorption = absorb_change fl c ts e.absorption;
      } in
      let (_, _, kept) = count_replenishments-Fills fl evs fed in
      on_changes-book ts changes (on_change fl ts c t) ∙ kept

  note_crossed-Shows :
      (symbol : String) (update_id : ℕ) (b : ShadowBook) (t : Turn Float)
      → t.engine.book ≡ b
      → Shows b (note_crossed fl symbol update_id t).engine.book
  unfolding note_crossed record_crossed
  note_crossed-Shows symbol update_id b t e =
      let same : Shows b t.engine.book = subst (λ c. Shows b c) (sym e) (refl, refl, refl, refl) in
      if-elim (λ (u : Turn Float). Shows b u.engine.book) (is_crossed t.engine.book) _ _
        (λ _.
          if-elim (λ (u : Turn Float). Shows b (mark_crossed fl true u).engine.book)
            (not t.engine.book_crossed) _ _ (λ _. same) (λ _. same))
        (λ _. same)

  finalize-book :
      (ts : ℕ) (t : Turn Float) → (maybe_finalize_snapshot fl ts t).engine.book ≡ t.engine.book
  unfolding maybe_finalize_snapshot build_snapshot
  finalize-book ts t =
      if-elim (λ (u : Turn Float). u.engine.book ≡ t.engine.book)
        (needs_snapshot (max t.engine.cfg.snapshot_interval_ms 1) ts t.engine.last_snapshot_ts) _ _
        (λ _. refl) (λ _. refl)

  on_update-Shows :
      (symbol : String) (update_id ts : ℕ) (b : ShadowBook) (changes : List LevelChange)
      (t : Turn Float)
      → Shows b (on_update fl symbol update_id ts (b, changes) t).engine.book
  unfolding on_update
  on_update-Shows symbol update_id ts b changes t =
      let updated = record t { engine = record t.engine { last_event_ts = some ts; book = b } } in
      let changed = on_changes fl ts changes updated in
      let noted = note_crossed fl symbol update_id changed in
      subst (λ c. Shows b c) (sym (finalize-book ts noted))
        (note_crossed-Shows symbol update_id b changed (on_changes-book ts changes updated))

  -- When the engine's book has the sides of the live book and the live book takes a depth event
  -- without an error, the engine, given the message that the driver then sends, has the same sides
  -- as the live book again, and its update id; whatever its detectors, its heatmap and a snapshot
  -- that is due do in between.
  pub process_event-updated-Mirrors :
      (symbol : String) (update : DepthUpdate) (b : OrderBook) (e : AnalyticsEngine Float)
      → Mirrors e.book b
      → (apply_depth_update fl update.bids update.asks update.final_update_id b).1 ≡ ok tt
      → let (c, _) = apply_depth_update fl update.bids update.asks update.final_update_id b in
        let (next, _) = process_event fl (updated_event fl symbol update c) e in
        Mirrors next.book c × (next.book.last_update_id ≡ some c.last_update_id)
  unfolding process_event dispatch prune
  process_event-updated-Mirrors symbol update b e m h =
      let (c, _) = apply_depth_update fl update.bids update.asks update.final_update_id b in
      let ((bids, asks), id) = apply_update_follows fl update b e.book m h in
      let (book, changes) =
        apply_update (map (change_of fl) update.bids) (map (change_of fl) update.asks)
          update.final_update_id e.book in
      let (same_bids, same_asks, same_id, _) =
        on_update-Shows symbol update.final_update_id update.event_time book changes
          (record { engine = e; out = record { events = []; snapshots = [] } }) in
      ((same_bids ∙ bids, same_asks ∙ asks), same_id ∙ id)

  on_snapshot-Shows :
      (symbol : String) (id : ℕ) (bids asks : List (ℕ × ℕ)) (t : Turn Float)
      → Shows
          (apply_snapshot bids asks id t.engine.book)
          (on_snapshot fl symbol id bids asks t).engine.book
  unfolding on_snapshot record_crossed
  on_snapshot-Shows symbol id bids asks t =
      let b = apply_snapshot bids asks id t.engine.book in
      if-elim (λ (u : Turn Float). Shows b u.engine.book) (is_crossed b) _ _
        (λ _. (refl, refl, refl, refl)) (λ _. (refl, refl, refl, refl))

  -- When the engine, whatever its state, is given the levels of a valid live book in the order of
  -- the message that a snapshot task sends, its book has the same sides and the same update id, and
  -- is ready.
  pub process_event-snapshot-Mirrors :
      (symbol : String) (b : OrderBook) (e : AnalyticsEngine Float)
      → IsValid b
      → let full = snapshot fl b in
        let (next, _) =
          process_event fl
            (order_book_snapshot symbol full.last_update_id
              (pairs fl symbol full.bids)
              (pairs fl symbol full.asks))
            e in
        Mirrors next.book b
        × (next.book.ready ≡ true)
        × (next.book.last_update_id ≡ some b.last_update_id)
  unfolding process_event dispatch prune
  process_event-snapshot-Mirrors symbol b e v =
      let full = snapshot fl b in
      let ((bids, asks), ready, id) = apply_snapshot_follows fl b e.book v in
      let (same_bids, same_asks, same_id, same_ready) =
        on_snapshot-Shows symbol full.last_update_id (pairs fl "" full.bids) (pairs fl "" full.asks)
          (record { engine = e; out = record { events = []; snapshots = [] } }) in
      ((same_bids ∙ bids, same_asks ∙ asks), same_ready ∙ ready, same_id ∙ id)
