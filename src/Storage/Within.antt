-- ===== src/Storage/Within.antt =====
-- What the sink stores when inserts may fail is part of what was sent, in its order
-- (src/storage/analytics.rs).
use futures_orderbook.Prelude.{ℕ, sym, max, subst, List, [], ◌∷◌, ◌++◌, Bool, not, ◌&&◌, if-elim}
use mathlib.Core.List.{Sublist, append-nil}
use mathlib.Core.List.Sublist
use futures_orderbook.Storage.Analytics.{AnalyticsBatch, is_nil, cleared}
use futures_orderbook.Storage.Sink.{
  Table, Sink, extend, insert, flush_batch, on_batch, on_batches, run_sink,
}
use futures_orderbook.Storage.Joined.{extend-cleared, extend_assoc, joined}

Sublist-nil : {A : Type 0} (xs : List A) → Sublist [] xs
Sublist-nil [] = Sublist.refl []
Sublist-nil (x ∷ xs) = Sublist.cons x (Sublist-nil xs)

Sublist-extended : {A : Type 0} (xs ys : List A) → Sublist xs (xs ++ ys)
Sublist-extended xs ys =
    subst (λ zs. Sublist zs (xs ++ ys)) (append-nil xs)
      (Sublist.append (Sublist.refl xs) (Sublist-nil ys))

insert-Sublist :
    (accepts : ℕ → Table → Bool) {A : Type 0} (n : ℕ) (t : Table) (xs stored : List A)
    → Sublist (insert accepts n t xs stored) (stored ++ xs)
insert-Sublist accepts n t xs stored =
    if-elim (λ ys. Sublist ys (stored ++ xs)) (not (is_nil xs) && accepts n t) (stored ++ xs) stored
      (λ _. Sublist.refl (stored ++ xs)) (λ _. Sublist-extended stored xs)

module _ {Uuid DateTime Float : Type 0} where
  pub record Within (a b : AnalyticsBatch Uuid DateTime Float) : Type 0 where
    pub snapshots : Sublist a.snapshots b.snapshots
    pub events : Sublist a.events b.events
    pub delta_by_price : Sublist a.delta_by_price b.delta_by_price
    pub liquidity_events : Sublist a.liquidity_events b.liquidity_events

  Within-refl : (a : AnalyticsBatch Uuid DateTime Float) → Within a a
  Within-refl a = record {
    snapshots = Sublist.refl a.snapshots;
    events = Sublist.refl a.events;
    delta_by_price = Sublist.refl a.delta_by_price;
    liquidity_events = Sublist.refl a.liquidity_events;
  }

  Within-trans : (a b c : AnalyticsBatch Uuid DateTime Float) → Within a b → Within b c → Within a c
  Within-trans a b c p q = record {
    snapshots = Sublist.trans p.snapshots q.snapshots;
    events = Sublist.trans p.events q.events;
    delta_by_price = Sublist.trans p.delta_by_price q.delta_by_price;
    liquidity_events = Sublist.trans p.liquidity_events q.liquidity_events;
  }

  extend-Within :
      (a b c : AnalyticsBatch Uuid DateTime Float) → Within a b → Within (extend a c) (extend b c)
  extend-Within a b c p = record {
    snapshots = Sublist.append p.snapshots (Sublist.refl c.snapshots);
    events = Sublist.append p.events (Sublist.refl c.events);
    delta_by_price = Sublist.append p.delta_by_price (Sublist.refl c.delta_by_price);
    liquidity_events = Sublist.append p.liquidity_events (Sublist.refl c.liquidity_events);
  }

  abbrev taken : Sink Uuid DateTime Float → AnalyticsBatch Uuid DateTime Float
  taken s = extend s.stored s.pending

  module _ (accepts : ℕ → Table → Bool) where
    flush_batch-Within :
        (s : Sink Uuid DateTime Float) → Within (flush_batch accepts s).stored (taken s)
    unfolding flush_batch
    flush_batch-Within s =
        let n = s.flushes in
        record {
          snapshots =
              insert-Sublist accepts n Table.snapshots s.pending.snapshots s.stored.snapshots;
          events = insert-Sublist accepts n Table.events s.pending.events s.stored.events;
          delta_by_price =
              insert-Sublist accepts n Table.delta_by_price s.pending.delta_by_price
                s.stored.delta_by_price;
          liquidity_events =
              insert-Sublist accepts n Table.liquidity_events s.pending.liquidity_events
                s.stored.liquidity_events;
        }

    on_batch-Within :
        (capacity : ℕ) (b : AnalyticsBatch Uuid DateTime Float) (s : Sink Uuid DateTime Float)
        → Within (taken (on_batch accepts capacity b s)) (extend (taken s) b)
    unfolding on_batch flush_batch
    on_batch-Within capacity b s =
        let more = record s { pending = extend s.pending b } in
        if-elim (λ t. Within (taken t) (extend (taken s) b)) _ (flush_batch accepts more) more
          (λ _.
            subst (λ x. Within x (extend (taken s) b)) (sym (extend-cleared _))
              (subst (Within _) (sym (extend_assoc s.stored s.pending b))
                (flush_batch-Within more)))
          (λ _.
            subst (Within (taken more)) (sym (extend_assoc s.stored s.pending b))
              (Within-refl (taken more)))

    on_batches-Within :
        (capacity : ℕ) (bs : List (AnalyticsBatch Uuid DateTime Float))
        (s : Sink Uuid DateTime Float)
        → Within (taken (on_batches accepts capacity bs s)) (extend (taken s) (joined bs))
    unfolding on_batches
    on_batches-Within capacity [] s =
        subst (Within (taken s)) (sym (extend-cleared (taken s))) (Within-refl (taken s))
    on_batches-Within capacity (b ∷ bs) s =
        let next = on_batch accepts capacity b s in
        Within-trans _ _ _ (on_batches-Within capacity bs next) (
          subst (Within (extend (taken next) (joined bs))) (extend_assoc (taken s) b (joined bs)) (
            extend-Within (taken next) (extend (taken s) b) (joined bs)
              (on_batch-Within capacity b s)))

    pub run_sink-Within :
        (channel_capacity : ℕ) (s : Sink Uuid DateTime Float)
        → Within (run_sink accepts channel_capacity s).stored (extend s.stored (joined s.channel))
    unfolding run_sink
    run_sink-Within channel_capacity s =
        let begun = record s { channel = []; pending = cleared } in
        let capacity = max channel_capacity 1 in
        Within-trans _ _ _ (flush_batch-Within (on_batches accepts capacity s.channel begun)) (
          subst
            (λ b.
              Within (taken (on_batches accepts capacity s.channel begun))
                (extend b (joined s.channel)))
            (extend-cleared s.stored) (on_batches-Within capacity s.channel begun))
