-- ===== src/Recording/Lanes.antt =====
-- The rows of the three kinds that are stored, pending or queued, and how a record moves among them.
use futures_orderbook.Prelude.{◌≡◌, refl, sym, ◌∙◌, ap, List, [], ◌∷◌, ◌++◌}
use mathlib.Core.List.{append_assoc, append-nil}
use futures_orderbook.Level.Floats.{F64}
use futures_orderbook.Recording.Host.{Host}
use futures_orderbook.Recording.Rows.{
  RawEventRow, TradeRow, LevelChangeRow, Record, raw, trade, depth, snapshot,
}
use futures_orderbook.Recording.Recorder.{Shared}
use futures_orderbook.Recording.Worker.{System, enqueue}
use futures_orderbook.Recording.Run.{drain}
use futures_orderbook.Recording.Kept.{
  raw_of, trade_of, levels_of, gather, gather-append, taken_raw, taken_trades, taken_levels, Keeps,
}

-- Stored, pending or queued, in this order.
module _ {Uuid DateTime : Type 0} where
  abbrev pub held_raw : System Uuid DateTime → List (RawEventRow Uuid DateTime)
  held_raw sys = taken_raw sys ++ gather raw_of sys.shared.queue

  abbrev pub held_trades : System Uuid DateTime → List (TradeRow Uuid DateTime)
  held_trades sys = taken_trades sys ++ gather trade_of sys.shared.queue

  abbrev pub held_levels : System Uuid DateTime → List (LevelChangeRow Uuid DateTime)
  held_levels sys = taken_levels sys ++ gather levels_of sys.shared.queue

  -- `next` holds what `sys` held, and then the rows of `sent`.
  pub record Extends (sent : List (Record Uuid DateTime)) (sys next : System Uuid DateTime)
      : Type 0 where
    pub raws : held_raw next ≡ held_raw sys ++ gather raw_of sent
    pub trades : held_trades next ≡ held_trades sys ++ gather trade_of sent
    pub levels : held_levels next ≡ held_levels sys ++ gather levels_of sent

  pub Extends-refl : (sys : System Uuid DateTime) → Extends [] sys sys
  Extends-refl sys = record {
    raws = sym (append-nil (held_raw sys));
    trades = sym (append-nil (held_trades sys));
    levels = sym (append-nil (held_levels sys));
  }

  joined :
      {A : Type 0} (of : Record Uuid DateTime → List A) (a b c : List A)
      (s t : List (Record Uuid DateTime))
      → b ≡ a ++ gather of s
      → c ≡ b ++ gather of t
      → c ≡ a ++ gather of (s ++ t)
  joined of a b c s t e f =
      f
      ∙ ap (λ l. l ++ gather of t) e
      ∙ append_assoc a (gather of s) (gather of t)
      ∙ ap (λ l. a ++ l) (sym (gather-append of s t))

  pub Extends-trans :
      (s t : List (Record Uuid DateTime)) (a b c : System Uuid DateTime)
      → Extends s a b
      → Extends t b c
      → Extends (s ++ t) a c
  Extends-trans s t a b c h k = record {
    raws = joined raw_of (held_raw a) (held_raw b) (held_raw c) s t h.raws k.raws;
    trades = joined trade_of (held_trades a) (held_trades b) (held_trades c) s t h.trades k.trades;
    levels = joined levels_of (held_levels a) (held_levels b) (held_levels c) s t h.levels k.levels;
  }

  kept :
      {A : Type 0} (of : Record Uuid DateTime → List A) (a b : List A)
      (q r : List (Record Uuid DateTime))
      → b ≡ a
      → r ≡ q
      → b ++ gather of r ≡ (a ++ gather of q) ++ []
  kept of a b q r e f =
      ap (λ l. l ++ gather of r) e
      ∙ ap (λ l. a ++ gather of l) f
      ∙ sym (append-nil (a ++ gather of q))

  pub Keeps-Extends : (sys next : System Uuid DateTime) → Keeps sys next → Extends [] sys next
  Keeps-Extends sys next k = record {
    raws =
        kept raw_of (taken_raw sys) (taken_raw next) sys.shared.queue next.shared.queue k.raws
          k.queue;
    trades =
        kept trade_of (taken_trades sys) (taken_trades next) sys.shared.queue next.shared.queue
          k.trades k.queue;
    levels =
        kept levels_of (taken_levels sys) (taken_levels next) sys.shared.queue next.shared.queue
          k.levels k.queue;
  }

  -- A call changes the shared state alone, and appends to the queue.
  pub called :
      (sys : System Uuid DateTime) (s : Shared Uuid DateTime) (sent : List (Record Uuid DateTime))
      → s.queue ≡ sys.shared.queue ++ sent
      → Extends sent sys (record sys { shared = s })
  called sys s sent e = record {
    raws = longer raw_of (taken_raw sys);
    trades = longer trade_of (taken_trades sys);
    levels = longer levels_of (taken_levels sys);
  }
    where
      longer :
          {A : Type 0} (of : Record Uuid DateTime → List A) (a : List A)
          → a ++ gather of s.queue ≡ (a ++ gather of sys.shared.queue) ++ gather of sent
      longer of a =
          ap (λ l. a ++ gather of l) e
          ∙ ap (λ l. a ++ l) (gather-append of sys.shared.queue sent)
          ∙ sym (append_assoc a (gather of sys.shared.queue) (gather of sent))

  -- The lane that a record of the queue goes to, and those that it has nothing for.
  goes :
      {A : Type 0} (of : Record Uuid DateTime → List A) (stored pending : List A)
      (r : Record Uuid DateTime) (rest q : List (Record Uuid DateTime))
      → q ≡ r ∷ rest
      → (stored ++ (pending ++ of r)) ++ gather of rest ≡ ((stored ++ pending) ++ gather of q) ++ []
  goes of stored pending r rest q e =
      ap (λ l. l ++ gather of rest) (sym (append_assoc stored pending (of r)))
      ∙ append_assoc (stored ++ pending) (of r) (gather of rest)
      ∙ ap (λ l. (stored ++ pending) ++ gather of l) (sym e)
      ∙ sym (append-nil ((stored ++ pending) ++ gather of q))

  passes :
      {A : Type 0} (of : Record Uuid DateTime → List A) (a : List A) (r : Record Uuid DateTime)
      (rest q : List (Record Uuid DateTime))
      → q ≡ r ∷ rest
      → of r ≡ []
      → a ++ gather of rest ≡ (a ++ gather of q) ++ []
  passes of a r rest q e f =
      ap (λ l. a ++ (l ++ gather of rest)) (sym f)
      ∙ ap (λ l. a ++ gather of l) (sym e)
      ∙ sym (append-nil (a ++ gather of q))

module _ (host : Host) (fl : F64) where
  open host use {Uuid, DateTime}

  abbrev pub popped : List (Record Uuid DateTime) → System Uuid DateTime → System Uuid DateTime
  popped rest sys = record sys { shared = record sys.shared { queue = rest } }

  -- One record goes from the queue to its pending list.
  pub enqueue-Extends :
      (r : Record Uuid DateTime) (rest : List (Record Uuid DateTime)) (sys : System Uuid DateTime)
      → sys.shared.queue ≡ r ∷ rest
      → Extends [] sys (enqueue host r (popped rest sys))
  unfolding enqueue
  enqueue-Extends (raw row) rest sys e = record {
    raws = goes raw_of sys.store.raw sys.worker.pending_raw (raw row) rest sys.shared.queue e;
    trades = passes trade_of (taken_trades sys) (raw row) rest sys.shared.queue e refl;
    levels = passes levels_of (taken_levels sys) (raw row) rest sys.shared.queue e refl;
  }
  enqueue-Extends (trade row) rest sys e = record {
    raws = passes raw_of (taken_raw sys) (trade row) rest sys.shared.queue e refl;
    trades =
        goes trade_of sys.store.trades sys.worker.pending_trades (trade row) rest sys.shared.queue
          e;
    levels = passes levels_of (taken_levels sys) (trade row) rest sys.shared.queue e refl;
  }
  enqueue-Extends (depth rows) rest sys e = record {
    raws = passes raw_of (taken_raw sys) (depth rows) rest sys.shared.queue e refl;
    trades = passes trade_of (taken_trades sys) (depth rows) rest sys.shared.queue e refl;
    levels =
        goes levels_of sys.store.depth sys.worker.pending_depth (depth rows) rest sys.shared.queue
          e;
  }
  enqueue-Extends (snapshot row) rest sys e = record {
    raws = passes raw_of (taken_raw sys) (snapshot row) rest sys.shared.queue e refl;
    trades = passes trade_of (taken_trades sys) (snapshot row) rest sys.shared.queue e refl;
    levels = passes levels_of (taken_levels sys) (snapshot row) rest sys.shared.queue e refl;
  }

  enqueue-queue :
      (r : Record Uuid DateTime) (rest : List (Record Uuid DateTime)) (sys : System Uuid DateTime)
      → (enqueue host r (popped rest sys)).shared.queue ≡ rest
  unfolding enqueue
  enqueue-queue r rest sys = refl

  pub drain-Extends :
      (q : List (Record Uuid DateTime)) (sys : System Uuid DateTime)
      → sys.shared.queue ≡ q
      → Extends [] sys (drain host fl q sys)
  unfolding drain
  drain-Extends [] sys e =
      Keeps-Extends sys (popped [] sys)
        (record { raws = refl; trades = refl; levels = refl; queue = sym e })
  drain-Extends (r ∷ rest) sys e =
      let next = enqueue host r (popped rest sys) in
      Extends-trans [] [] sys next (drain host fl rest next) (enqueue-Extends r rest sys e)
        (drain-Extends rest next (enqueue-queue r rest sys))
