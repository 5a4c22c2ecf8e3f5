-- ===== src/Engine/Depth.antt =====
-- What the loop does with a depth event, by the state of the synchronizer.
use futures_orderbook.Prelude.{
  ℕ, ◌<◌, ◌≡◌, refl, ap, ◌∙◌, String, List, [], ◌∷◌, map, true, false, none, some, ok, err,
  Result-cases, inl, inr, if_true, if_false, if-elim, arith,
}
use futures_orderbook.Binance.{DepthUpdate}
use futures_orderbook.Error.{AnyError}
use futures_orderbook.Level.Floats.{F64}
use futures_orderbook.Book.Apply.{apply_depth_update}
use futures_orderbook.Book.Spec.{decode}
use futures_orderbook.Book.Valid.{IsValid}
use futures_orderbook.Book.Update.{
  IsWritten, apply_depth_update_refines, apply_depth_update_half_applied,
}
use futures_orderbook.Sync.State.{snapshot_loading, ready}
use futures_orderbook.Sync.Defs.{
  Synchronizer, apply, process_live_event, buffer_event, is_buffering,
}
use futures_orderbook.Sync.Live.{process_live_event_outcomes}
use futures_orderbook.Engine.Defs.{
  System, depth, apply_pending, on_depth, on_depth_in, on_live_result, on_pending, sync_locked,
  loop_free, advance, run,
}

-- The loop waits for nothing.
abbrev pub IsIdle : {Float : Type 0} → System Float → Type 0
IsIdle sys = (sys.pending ≡ none) × (sync_locked sys.tasks ≡ false)

module _ (fl : F64) (symbol : String) where
  idle-free : (sys : System fl.Float) → IsIdle sys → loop_free fl symbol sys ≡ true
  idle-free sys (free, unlocked) = rw (free, unlocked)

buffer_event-loading :
    (update : DepthUpdate) (s : Synchronizer)
    → s.state ≡ snapshot_loading
    → buffer_event update s ≡ s
unfolding buffer_event
buffer_event-loading update s e = if_false _ _ (ap is_buffering e)

-- After a live event that is to be applied.
abbrev pub accepted : {Float : Type 0} → DepthUpdate → System Float → System Float
accepted update sys = record sys {
  sync = (process_live_event update sys.sync).0;
  pending = some update;
}

live_applied :
    (update : DepthUpdate) (s : Synchronizer) (u : ℕ)
    → s.state ≡ ready
    → s.last_applied_u ≡ some u
    → update.previous_final_update_id ≡ u
    → u < update.final_update_id
    → let (t, result) = process_live_event update s in
      (result ≡ apply) × (t.last_applied_u ≡ some update.final_update_id) × (t.state ≡ ready)
live_applied update s u hr hu fits above =
    let (outcome, still) = process_live_event_outcomes update s u hr hu in
    elim outcome [
      | inl (_, _, result, last) ↦ (result, last, still)
      | inr (inl (gap, _, _)) ↦ absurd (gap fits)
      | inr (inr (_, below, _, _)) ↦ absurd (omega arith)
    ]

module _ (fl : F64) (symbol : String) where
  on_depth-loading :
      (update : DepthUpdate) (sys : System fl.Float)
      → sys.sync.state ≡ snapshot_loading
      → on_depth fl symbol update sys ≡ sys
  unfolding on_depth
  on_depth-loading update sys e =
      ap (λ st. on_depth_in fl symbol st update sys) e
      ∙ ap (λ (s : Synchronizer). record sys { sync = s }) (buffer_event-loading update sys.sync e)

  -- While a snapshot is being loaded, every depth event is lost: any number of them leaves the
  -- system as it was, buffer and counters included.
  pub depth_lost_while_loading :
      (updates : List DepthUpdate) (sys : System fl.Float)
      → sys.sync.state ≡ snapshot_loading
      → run fl symbol (map depth updates) sys ≡ sys
  unfolding run advance
  depth_lost_while_loading [] sys e = refl
  depth_lost_while_loading (u ∷ us) sys e =
      let one : advance fl symbol (depth u) sys ≡ sys =
        if-elim (λ r. r ≡ sys) (loop_free fl symbol sys) _ sys (λ _. on_depth-loading u sys e)
          (λ _. refl) in
      ap (run fl symbol (map depth us)) one ∙ depth_lost_while_loading us sys e

  advance-accepted :
      (update : DepthUpdate) (sys : System fl.Float)
      → IsIdle sys
      → sys.sync.state ≡ ready
      → (process_live_event update sys.sync).1 ≡ apply
      → advance fl symbol (depth update) sys ≡ accepted update sys
  unfolding advance on_depth
  advance-accepted update sys idle hr result =
      if_true _ _ (idle-free fl symbol sys idle)
      ∙ ap (λ st. on_depth_in fl symbol st update sys) hr
      ∙ ap (λ r. on_live_result fl symbol update (process_live_event update sys.sync).0 r sys)
          result

  on_pending_fields :
      (update : DepthUpdate) (sys : System fl.Float)
      → let t = on_pending fl symbol update sys in
        (t.book ≡ (apply_depth_update fl update.bids update.asks update.final_update_id sys.book).0)
        × (t.sync ≡ sys.sync)
        × (t.pending ≡ none)
  unfolding on_pending
  on_pending_fields update sys =
      elim (Result-cases
        (apply_depth_update fl update.bids update.asks update.final_update_id sys.book).1) [
          | inl (u, e) ↦ rw (e, on_pending) (refl, refl, refl)
          | inr (bad, e) ↦ rw (e, on_pending) (refl, refl, refl)
        ]

  run-live :
      (update : DepthUpdate) (sys : System fl.Float)
      → IsIdle sys
      → sys.sync.state ≡ ready
      → (process_live_event update sys.sync).1 ≡ apply
      → run fl symbol (depth update ∷ apply_pending ∷ []) sys
        ≡ on_pending fl symbol update (accepted update sys)
  unfolding run advance
  run-live update sys idle hr result =
      ap (advance fl symbol apply_pending) (advance-accepted update sys idle hr result)

  module _ (update : DepthUpdate) (sys : System fl.Float) (u : ℕ) (us vs : List (ℕ × ℕ))
      (idle : IsIdle sys) (hr : sys.sync.state ≡ ready) (hu : sys.sync.last_applied_u ≡ some u)
      (fits : update.previous_final_update_id ≡ u) (above : u < update.final_update_id)
      (valid : IsValid sys.book) (started : sys.book.initialized ≡ true)
      (bids_read : decode fl update.bids ≡ (us, ok tt)) where
    live_fields :
        let t = run fl symbol (depth update ∷ apply_pending ∷ []) sys in
        (t.book ≡ (apply_depth_update fl update.bids update.asks update.final_update_id sys.book).0)
        × (t.sync.last_applied_u ≡ some update.final_update_id)
        × (t.sync.state ≡ ready)
        × (t.pending ≡ none)
    live_fields =
        let (result, last, still) = live_applied update sys.sync u hr hu fits above in
        let r = run-live update sys idle hr result in
        let (book, sync, free) = on_pending_fields update (accepted update sys) in
        (
          ap (λ t. t.book) r ∙ book,
          ap (λ t. t.sync.last_applied_u) r ∙ ap (λ s. s.last_applied_u) sync ∙ last,
          ap (λ t. t.sync.state) r ∙ ap (λ s. s.state) sync ∙ still,
          ap (λ t. t.pending) r ∙ free,
        )

    -- In `Ready`, with nothing to wait for and a valid, initialised book, an event that parses, whose
    -- `pu` is the last applied id and whose own id is above it, ends in a book that reads as written
    -- by it, and in a book and a synchronizer that both remember its id; the system is `Ready` for
    -- the next.
    pub live_update_applied :
        decode fl update.asks ≡ (vs, ok tt)
        → let t = run fl symbol (depth update ∷ apply_pending ∷ []) sys in
          IsWritten us vs sys.book t.book
          × (t.book.last_update_id ≡ update.final_update_id)
          × (t.sync.last_applied_u ≡ some update.final_update_id)
          × (t.sync.state ≡ ready)
          × (t.pending ≡ none)
    live_update_applied dv =
        let (result, written, id, _) =
          apply_depth_update_refines fl update.bids update.asks us vs update.final_update_id
            sys.book valid started bids_read dv in
        let (book, last, still, free) = live_fields in
        ((λ p. rw book (written p)), ap (λ b. b.last_update_id) book ∙ id, last, still, free)

    -- In `Ready`, with nothing to wait for and a valid, initialised book, an event that follows the
    -- last applied one, whose bids parse and whose asks do not, is half written: the bids are all in
    -- the book and so are the asks before the bad text, and the book keeps its old id, while the
    -- synchronizer stays `Ready` and remembers the id of the event as the last applied one.
    pub live_update_half_applied :
        (e : AnyError)
        → decode fl update.asks ≡ (vs, err e)
        → let t = run fl symbol (depth update ∷ apply_pending ∷ []) sys in
          IsWritten us vs sys.book t.book
          × (t.book.last_update_id ≡ sys.book.last_update_id)
          × (t.sync.last_applied_u ≡ some update.final_update_id)
          × (t.sync.state ≡ ready)
    live_update_half_applied e dv =
        let (result, written, id) =
          apply_depth_update_half_applied fl update.bids update.asks us vs update.final_update_id
            sys.book e valid started bids_read dv in
        let (book, last, still, _) = live_fields in
        ((λ p. rw book (written p)), ap (λ b. b.last_update_id) book ∙ id, last, still)
