-- ===== src/Recording/Kept.antt =====
-- No row of an event, of a trade or of a level is lost or doubled between the queue and the storage.
use futures_orderbook.Prelude.{
  ℕ, ◌≡◌, refl, sym, ◌∙◌, ap, String, List, [], ◌∷◌, ◌++◌, Option, none, some, Option-cases, inl,
  inr, if-elim, if◌then◌else◌,
}
use mathlib.Core.List.{append_assoc, append-nil}
use futures_orderbook.Recording.Host.{Host}
use futures_orderbook.Recording.Rows.{
  RawEventRow, TradeRow, LevelChangeRow, SnapshotRow, Record, raw, trade, depth,
}
use futures_orderbook.Recording.Worker.{
  System, Flush, retry_insert, flush_list, end_raw, end_trades, end_depth, end_snapshot, flush_raw,
  flush_trades, flush_depth, flush_snapshot, sync_session_health, flush_all,
}

module _ {Uuid DateTime : Type 0} where
  abbrev pub raw_of : Record Uuid DateTime → List (RawEventRow Uuid DateTime)
  raw_of (raw row) = row ∷ []
  raw_of _ = []

  abbrev pub trade_of : Record Uuid DateTime → List (TradeRow Uuid DateTime)
  trade_of (trade row) = row ∷ []
  trade_of _ = []

  abbrev pub levels_of : Record Uuid DateTime → List (LevelChangeRow Uuid DateTime)
  levels_of (depth rows) = rows
  levels_of _ = []

  abbrev pub gather :
      {A : Type 0} → (Record Uuid DateTime → List A) → List (Record Uuid DateTime) → List A
  gather f [] = []
  gather f (r ∷ rs) = f r ++ gather f rs

  pub gather-append :
      {A : Type 0} (f : Record Uuid DateTime → List A) (rs qs : List (Record Uuid DateTime))
      → gather f (rs ++ qs) ≡ gather f rs ++ gather f qs
  gather-append f [] qs = refl
  gather-append f (r ∷ rs) qs =
      ap (λ l. f r ++ l) (gather-append f rs qs)
      ∙ sym (append_assoc (f r) (gather f rs) (gather f qs))

  -- The rows of the three kinds that are stored or pending, in the order of storing.
  abbrev pub taken_raw : System Uuid DateTime → List (RawEventRow Uuid DateTime)
  taken_raw sys = sys.store.raw ++ sys.worker.pending_raw

  abbrev pub taken_trades : System Uuid DateTime → List (TradeRow Uuid DateTime)
  taken_trades sys = sys.store.trades ++ sys.worker.pending_trades

  abbrev pub taken_levels : System Uuid DateTime → List (LevelChangeRow Uuid DateTime)
  taken_levels sys = sys.store.depth ++ sys.worker.pending_depth

  -- What a flush leaves alone.
  pub record Keeps (sys next : System Uuid DateTime) : Type 0 where
    pub raws : taken_raw next ≡ taken_raw sys
    pub trades : taken_trades next ≡ taken_trades sys
    pub levels : taken_levels next ≡ taken_levels sys
    pub queue : next.shared.queue ≡ sys.shared.queue

  Keeps-refl : (sys : System Uuid DateTime) → Keeps sys sys
  Keeps-refl sys = record { raws = refl; trades = refl; levels = refl; queue = refl }

  Keeps-trans : (a b c : System Uuid DateTime) → Keeps a b → Keeps b c → Keeps a c
  Keeps-trans a b c h k = record {
    raws = k.raws ∙ h.raws;
    trades = k.trades ∙ h.trades;
    levels = k.levels ∙ h.levels;
    queue = k.queue ∙ h.queue;
  }

-- A batch that was pending is stored.
moved :
    {A : Type 0} (stored batch pending : List A)
    → pending ≡ batch
    → (stored ++ batch) ++ [] ≡ stored ++ pending
moved stored batch pending e = append-nil (stored ++ batch) ∙ ap (λ l. stored ++ l) (sym e)

module _ (host : Host) where
  open host use {Uuid, DateTime}

  flush_raw-Keeps : (f : Flush host) (sys : System Uuid DateTime) → Keeps sys (flush_raw host f sys)
  unfolding flush_raw
  flush_raw-Keeps f sys = go sys.worker.pending_raw refl
    where
      ends :
          (r : Option String × ℕ) (batch : List (RawEventRow Uuid DateTime))
          → sys.worker.pending_raw ≡ batch
          → Keeps sys (end_raw host r f.raw_ns batch sys)
      ends (none, n) batch e = record {
        raws = moved sys.store.raw batch sys.worker.pending_raw e;
        trades = refl;
        levels = refl;
        queue = refl;
      }
      ends (some x, n) batch e = record {
        raws = ap (λ l. sys.store.raw ++ l) (sym e);
        trades = refl;
        levels = refl;
        queue = refl;
      }

      go :
          (batch : List (RawEventRow Uuid DateTime))
          → sys.worker.pending_raw ≡ batch
          → Keeps sys (flush_list host (end_raw host) f.to_raw f.raw_ns batch sys)
      go [] e = Keeps-refl sys
      go (x ∷ batch) e =
          ends (retry_insert f.to_raw 0 sys.worker.config.retry_attempts none) (x ∷ batch) e

  flush_trades-Keeps :
      (f : Flush host) (sys : System Uuid DateTime) → Keeps sys (flush_trades host f sys)
  unfolding flush_trades
  flush_trades-Keeps f sys = go sys.worker.pending_trades refl
    where
      ends :
          (r : Option String × ℕ) (batch : List (TradeRow Uuid DateTime))
          → sys.worker.pending_trades ≡ batch
          → Keeps sys (end_trades host r f.trades_ns batch sys)
      ends (none, n) batch e = record {
        raws = refl;
        trades = moved sys.store.trades batch sys.worker.pending_trades e;
        levels = refl;
        queue = refl;
      }
      ends (some x, n) batch e = record {
        raws = refl;
        trades = ap (λ l. sys.store.trades ++ l) (sym e);
        levels = refl;
        queue = refl;
      }

      go :
          (batch : List (TradeRow Uuid DateTime))
          → sys.worker.pending_trades ≡ batch
          → Keeps sys (flush_list host (end_trades host) f.to_trades f.trades_ns batch sys)
      go [] e = Keeps-refl sys
      go (x ∷ batch) e =
          ends (retry_insert f.to_trades 0 sys.worker.config.retry_attempts none) (x ∷ batch) e

  flush_depth-Keeps :
      (f : Flush host) (sys : System Uuid DateTime) → Keeps sys (flush_depth host f sys)
  unfolding flush_depth
  flush_depth-Keeps f sys = go sys.worker.pending_depth refl
    where
      ends :
          (r : Option String × ℕ) (batch : List (LevelChangeRow Uuid DateTime))
          → sys.worker.pending_depth ≡ batch
          → Keeps sys (end_depth host r f.depth_ns batch sys)
      ends (none, n) batch e = record {
        raws = refl;
        trades = refl;
        levels = moved sys.store.depth batch sys.worker.pending_depth e;
        queue = refl;
      }
      ends (some x, n) batch e = record {
        raws = refl;
        trades = refl;
        levels = ap (λ l. sys.store.depth ++ l) (sym e);
        queue = refl;
      }

      go :
          (batch : List (LevelChangeRow Uuid DateTime))
          → sys.worker.pending_depth ≡ batch
          → Keeps sys (flush_list host (end_depth host) f.to_depth f.depth_ns batch sys)
      go [] e = Keeps-refl sys
      go (x ∷ batch) e =
          ends (retry_insert f.to_depth 0 sys.worker.config.retry_attempts none) (x ∷ batch) e

  flush_snapshot-Keeps :
      (f : Flush host) (sys : System Uuid DateTime) → Keeps sys (flush_snapshot host f sys)
  unfolding flush_snapshot
  flush_snapshot-Keeps f sys = go sys.worker.pending_snapshot
    where
      ends :
          (r : Option String × ℕ) (row : SnapshotRow Uuid DateTime)
          → Keeps sys (end_snapshot host r f.snapshot_ns row sys)
      ends (none, n) row = record { raws = refl; trades = refl; levels = refl; queue = refl }
      ends (some x, n) row = record { raws = refl; trades = refl; levels = refl; queue = refl }

      go :
          (o : Option (SnapshotRow Uuid DateTime))
          → Keeps sys (elim o [
            | none ↦ sys
            | some row ↦
                end_snapshot host
                  (retry_insert f.to_snapshot 0 sys.worker.config.retry_attempts none)
                  f.snapshot_ns
                  row
                  sys
          ])
      go none = Keeps-refl sys
      go (some row) = ends _ row

  sync_session_health-Keeps :
      (f : Flush host) (sys : System Uuid DateTime) → Keeps sys (sync_session_health host f sys)
  unfolding sync_session_health
  sync_session_health-Keeps f sys = if-elim (Keeps sys) _ _ _ (λ _. Keeps-refl sys) (λ _. answered)
    where
      answered : Keeps sys (elim f.to_status [
        | some e ↦ sys
        | none ↦ record sys {
          worker = record sys.worker { last_synced_degraded = sys.shared.health.degraded };
          store = record sys.store {
            statuses =
                sys.store.statuses
                ++ (if sys.shared.health.degraded then "DEGRADED" else "RECORDING") ∷ [];
          };
        }
      ])
      answered = elim (Option-cases f.to_status) [
        | inl e ↦ rw e (record { raws = refl; trades = refl; levels = refl; queue = refl })
        | inr (x, e) ↦ rw e (Keeps-refl sys)
      ]

  pub flush_all-Keeps :
      (f : Flush host) (sys : System Uuid DateTime) → Keeps sys (flush_all host f sys)
  unfolding flush_all
  flush_all-Keeps f sys =
      let a = flush_raw host f sys in
      let b = flush_trades host f a in
      let c = flush_depth host f b in
      let d = flush_snapshot host f c in
      let e = sync_session_health host f d in
      Keeps-trans sys d e
        (Keeps-trans sys c d
          (Keeps-trans sys b c
            (Keeps-trans sys a b (flush_raw-Keeps f sys) (flush_trades-Keeps f a))
            (flush_depth-Keeps f b))
          (flush_snapshot-Keeps f c))
        (sync_session_health-Keeps f d)
