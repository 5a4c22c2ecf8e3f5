-- ===== src/Storage/Joined.antt =====
-- Batches of rows joined, and the sink: where every insert is accepted, it stores what was sent
-- (src/storage/analytics.rs).
use futures_orderbook.Prelude.{
  ℕ, ◌≡◌, refl, sym, ◌∙◌, ap, max, List, [], ◌∷◌, ◌++◌, Bool, true, if-elim, Bool-cases, inl, inr,
  arith,
}
use mathlib.Core.List.{append_assoc, append-nil}
use futures_orderbook.Storage.Analytics.{
  AnalyticsSnapshotRow, AnalyticsEventRow, DeltaByPriceRow, LiquidityEventRow, AnalyticsBatch,
  is_empty, cleared,
}
use futures_orderbook.Storage.Sink.{
  Table, Sink, submit, extend, insert, flush_batch, on_batch, on_batches, run_sink,
}

insert-append :
    (accepts : ℕ → Table → Bool) (always : (n : ℕ) (t : Table) → accepts n t ≡ true) {A : Type 0}
    (n : ℕ) (t : Table) (xs stored : List A)
    → insert accepts n t xs stored ≡ stored ++ xs
insert-append accepts always n t [] stored = sym (append-nil stored)
insert-append accepts always n t (x ∷ xs) stored = rw (always n t) refl

module _ {Uuid DateTime Float : Type 0} where
  abbrev rows :
      List (AnalyticsSnapshotRow Uuid DateTime Float)
      → List (AnalyticsEventRow Uuid DateTime)
      → List (DeltaByPriceRow Uuid DateTime)
      → List (LiquidityEventRow Uuid DateTime)
      → AnalyticsBatch Uuid DateTime Float
  rows a b c d = record { snapshots = a; events = b; delta_by_price = c; liquidity_events = d }

  pub extend-cleared : (b : AnalyticsBatch Uuid DateTime Float) → extend b cleared ≡ b
  extend-cleared b =
      rw
        (
          append-nil b.snapshots,
          append-nil b.events,
          append-nil b.delta_by_price,
          append-nil b.liquidity_events,
        )
        refl

  pub extend_assoc :
      (a b c : AnalyticsBatch Uuid DateTime Float) → extend (extend a b) c ≡ extend a (extend b c)
  extend_assoc a b c =
      rw
        (
          append_assoc a.snapshots b.snapshots c.snapshots,
          append_assoc a.events b.events c.events,
          append_assoc a.delta_by_price b.delta_by_price c.delta_by_price,
          append_assoc a.liquidity_events b.liquidity_events c.liquidity_events,
        )
        refl

  abbrev pub joined : List (AnalyticsBatch Uuid DateTime Float) → AnalyticsBatch Uuid DateTime Float
  joined [] = cleared
  joined (b ∷ bs) = extend b (joined bs)

  joined-snoc :
      (bs : List (AnalyticsBatch Uuid DateTime Float)) (b : AnalyticsBatch Uuid DateTime Float)
      → joined (bs ++ b ∷ []) ≡ extend (joined bs) b
  joined-snoc [] b = extend-cleared b
  joined-snoc (c ∷ bs) b = ap (extend c) (joined-snoc bs b) ∙ sym (extend_assoc c (joined bs) b)

  rows-cleared :
      (a : List (AnalyticsSnapshotRow Uuid DateTime Float))
      (b : List (AnalyticsEventRow Uuid DateTime)) (c : List (DeltaByPriceRow Uuid DateTime))
      (d : List (LiquidityEventRow Uuid DateTime))
      → is_empty (rows a b c d) ≡ true
      → rows a b c d ≡ cleared
  unfolding is_empty
  rows-cleared [] [] [] [] e = refl
  rows-cleared (x ∷ a) b c d e = ground arith
  rows-cleared [] (x ∷ b) c d e = ground arith
  rows-cleared [] [] (x ∷ c) d e = ground arith
  rows-cleared [] [] [] (x ∷ d) e = ground arith

  is_empty-cleared : (b : AnalyticsBatch Uuid DateTime Float) → is_empty b ≡ true → b ≡ cleared
  is_empty-cleared b e = rows-cleared b.snapshots b.events b.delta_by_price b.liquidity_events e

  -- A batch with no row is not sent, and there is nothing to lose of it.
  pub submit-joined :
      (b : AnalyticsBatch Uuid DateTime Float) (s : Sink Uuid DateTime Float)
      → joined (submit b s).channel ≡ extend (joined s.channel) b
  unfolding submit
  submit-joined b s = elim (Bool-cases (is_empty b)) [
    | inl e ↦ rw (e, is_empty-cleared b e, extend-cleared (joined s.channel)) refl
    | inr e ↦ rw e (joined-snoc s.channel b)
  ]

  module _ (accepts : ℕ → Table → Bool) (always : (n : ℕ) (t : Table) → accepts n t ≡ true) where
    abbrev taken : Sink Uuid DateTime Float → AnalyticsBatch Uuid DateTime Float
    taken s = extend s.stored s.pending

    flush_batch-stored : (s : Sink Uuid DateTime Float) → (flush_batch accepts s).stored ≡ taken s
    unfolding flush_batch
    flush_batch-stored s =
        rw
          (
            insert-append accepts always s.flushes Table.snapshots s.pending.snapshots
                s.stored.snapshots,
            insert-append accepts always s.flushes Table.events s.pending.events s.stored.events,
            insert-append accepts always s.flushes Table.delta_by_price s.pending.delta_by_price
                s.stored.delta_by_price,
            insert-append accepts always s.flushes Table.liquidity_events s.pending.liquidity_events
                s.stored.liquidity_events,
          )
          refl

    on_batch-taken :
        (capacity : ℕ) (b : AnalyticsBatch Uuid DateTime Float) (s : Sink Uuid DateTime Float)
        → taken (on_batch accepts capacity b s) ≡ extend (taken s) b
    unfolding on_batch flush_batch
    on_batch-taken capacity b s =
        let more = record s { pending = extend s.pending b } in
        if-elim (λ t. taken t ≡ extend (taken s) b) _ (flush_batch accepts more) more
          (λ _.
            extend-cleared _ ∙ flush_batch-stored more ∙ sym (extend_assoc s.stored s.pending b))
          (λ _. sym (extend_assoc s.stored s.pending b))

    on_batches-taken :
        (capacity : ℕ) (bs : List (AnalyticsBatch Uuid DateTime Float))
        (s : Sink Uuid DateTime Float)
        → taken (on_batches accepts capacity bs s) ≡ extend (taken s) (joined bs)
    unfolding on_batches
    on_batches-taken capacity [] s = sym (extend-cleared (taken s))
    on_batches-taken capacity (b ∷ bs) s =
        on_batches-taken capacity bs (on_batch accepts capacity b s)
        ∙ ap (λ t. extend t (joined bs)) (on_batch-taken capacity b s)
        ∙ extend_assoc (taken s) b (joined bs)

    pub run_sink-stored :
        (channel_capacity : ℕ) (s : Sink Uuid DateTime Float)
        → (run_sink accepts channel_capacity s).stored ≡ extend s.stored (joined s.channel)
    unfolding run_sink
    run_sink-stored channel_capacity s =
        let started = record s { channel = []; pending = cleared } in
        flush_batch-stored (on_batches accepts (max channel_capacity 1) s.channel started)
        ∙ on_batches-taken (max channel_capacity 1) s.channel started
        ∙ ap (λ b. extend b (joined s.channel)) (extend-cleared s.stored)
