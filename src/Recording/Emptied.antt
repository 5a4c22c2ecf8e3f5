-- ===== src/Recording/Emptied.antt =====
-- src/recording/worker.rs, `flush_all`: with a storage that answers in time, a flush empties the lists.
use futures_orderbook.Prelude.{
  ℕ, zero, suc, ◌+◌, ◌<◌, ◌≡◌, refl, sym, ◌∙◌, ap, subst, String, List, [], ◌∷◌, Option, none, some,
  Option-cases, inl, inr, arith, if-elim,
}
use futures_orderbook.Recording.Host.{Host}
use futures_orderbook.Recording.Rows.{RawEventRow, TradeRow, LevelChangeRow, SnapshotRow}
use futures_orderbook.Recording.Worker.{
  RecordingConfig, System, Flush, Answers, retry_insert, flush_list, end_raw, end_trades, end_depth,
  end_snapshot, flush_raw, flush_trades, flush_depth, flush_snapshot, same, sync_session_health,
  flush_all,
}

-- One of the attempts from `attempt` on succeeds.
abbrev pub Accepts : Answers → (attempt left : ℕ) → Type 0
Accepts answer attempt left = (k : ℕ) × (k < left) × (answer (attempt + k) ≡ none)

no_lt : (k : ℕ) → k < 0 → ⊥
no_lt k h = omega (arith, h)

retry_insert-none :
    (answer : Answers) (attempt left : ℕ) (last : Option String)
    → Accepts answer attempt left
    → (retry_insert answer attempt left last).0 ≡ none
unfolding retry_insert
retry_insert-none answer attempt zero last (k, h, e) = elim (no_lt k h) [ ]
retry_insert-none answer attempt (suc left) last (k, h, e) = elim (Option-cases (answer attempt)) [
  | inl f ↦ rw (f, retry_insert) refl
  | inr (x, f) ↦
      rw (f, retry_insert) (retry_insert-none answer (attempt + 1) left (some x) (later k h e x f))
]
  where
    later :
        (k : ℕ)
        → k < suc left
        → answer (attempt + k) ≡ none
        → (x : String) → answer attempt ≡ some x
        → Accepts answer (attempt + 1) left
    later zero h e x f = let g : attempt + 0 ≡ attempt = omega arith in let d = ap answer g in cc
    later (suc k) h e x f =
        let g : attempt + 1 + k ≡ attempt + suc k = omega arith in
        (k, omega (arith, h), ap answer g ∙ e)

module _ (host : Host) where
  open host use {Uuid, DateTime}

  -- What is pending of each list, and the configuration.
  pub record Pends (config : RecordingConfig) (raws : List (RawEventRow Uuid DateTime))
      (trades : List (TradeRow Uuid DateTime)) (levels : List (LevelChangeRow Uuid DateTime))
      (sys : System Uuid DateTime) : Type 0 where
    pub same_config : sys.worker.config ≡ config
    pub same_raws : sys.worker.pending_raw ≡ raws
    pub same_trades : sys.worker.pending_trades ≡ trades
    pub same_levels : sys.worker.pending_depth ≡ levels

  listed :
      {c : RecordingConfig} {a : List (RawEventRow Uuid DateTime)}
      {b : List (TradeRow Uuid DateTime)} {d : List (LevelChangeRow Uuid DateTime)}
      {sys : System Uuid DateTime}
      → sys.worker.config ≡ c
      → sys.worker.pending_raw ≡ a
      → sys.worker.pending_trades ≡ b
      → sys.worker.pending_depth ≡ d
      → Pends c a b d sys
  listed e f g h = record { same_config = e; same_raws = f; same_trades = g; same_levels = h }

  -- A flush whose batch is accepted ends as after an empty list, or as after an insert.
  flush_list-accepted :
      {A : Type 0}
      (end : Option String × ℕ → ℕ → List A → System Uuid DateTime → System Uuid DateTime)
      (answer : Answers) (ns : ℕ) (P : System Uuid DateTime → Type 0) (batch : List A)
      (sys : System Uuid DateTime)
      → Accepts answer 0 sys.worker.config.retry_attempts
      → (batch ≡ [] → P sys)
      → ((n : ℕ) (rows : List A) → P (end (none, n) ns rows sys))
      → P (flush_list host end answer ns batch sys)
  flush_list-accepted end answer ns P [] sys h empty ends = empty refl
  flush_list-accepted end answer ns P (x ∷ batch) sys h empty ends =
      after (retry_insert answer 0 sys.worker.config.retry_attempts none)
        (retry_insert-none answer 0 sys.worker.config.retry_attempts none h)
    where
      after : (r : Option String × ℕ) → r.0 ≡ none → P (end r ns (x ∷ batch) sys)
      after (r, n) e = subst (λ o. P (end (o, n) ns (x ∷ batch) sys)) (sym e) (ends n (x ∷ batch))

  module _ (f : Flush host) (c : RecordingConfig) (a : List (RawEventRow Uuid DateTime))
      (b : List (TradeRow Uuid DateTime)) (d : List (LevelChangeRow Uuid DateTime))
      (sys : System Uuid DateTime) (p : Pends c a b d sys) where
    flush_raw-Pends : Accepts f.to_raw 0 c.retry_attempts → Pends c [] b d (flush_raw host f sys)
    unfolding flush_raw
    flush_raw-Pends h =
        flush_list-accepted (end_raw host) f.to_raw f.raw_ns (Pends c [] b d) sys.worker.pending_raw
          sys
          (subst (λ (k : RecordingConfig). Accepts f.to_raw 0 k.retry_attempts) (sym p.same_config)
            h)
          (λ e. listed p.same_config e p.same_trades p.same_levels)
          (λ n rows. listed p.same_config refl p.same_trades p.same_levels)

    flush_trades-Pends :
        Accepts f.to_trades 0 c.retry_attempts → Pends c a [] d (flush_trades host f sys)
    unfolding flush_trades
    flush_trades-Pends h =
        flush_list-accepted (end_trades host) f.to_trades f.trades_ns (Pends c a [] d)
          sys.worker.pending_trades sys
          (subst (λ (k : RecordingConfig). Accepts f.to_trades 0 k.retry_attempts)
            (sym p.same_config) h)
          (λ e. listed p.same_config p.same_raws e p.same_levels)
          (λ n rows. listed p.same_config p.same_raws refl p.same_levels)

    flush_depth-Pends :
        Accepts f.to_depth 0 c.retry_attempts → Pends c a b [] (flush_depth host f sys)
    unfolding flush_depth
    flush_depth-Pends h =
        flush_list-accepted (end_depth host) f.to_depth f.depth_ns (Pends c a b [])
          sys.worker.pending_depth sys
          (subst (λ (k : RecordingConfig). Accepts f.to_depth 0 k.retry_attempts)
            (sym p.same_config) h)
          (λ e. listed p.same_config p.same_raws p.same_trades e)
          (λ n rows. listed p.same_config p.same_raws p.same_trades refl)

    flush_snapshot-Pends : Pends c a b d (flush_snapshot host f sys)
    unfolding flush_snapshot
    flush_snapshot-Pends = go sys.worker.pending_snapshot
      where
        ends :
            (row : SnapshotRow Uuid DateTime) (r : Option String × ℕ)
            → Pends c a b d (end_snapshot host r f.snapshot_ns row sys)
        ends row (none, n) = listed p.same_config p.same_raws p.same_trades p.same_levels
        ends row (some e, n) = listed p.same_config p.same_raws p.same_trades p.same_levels

        go :
            (o : Option (SnapshotRow Uuid DateTime))
            → Pends c a b d (elim o [
              | none ↦ sys
              | some row ↦
                  end_snapshot host
                    (retry_insert f.to_snapshot 0 sys.worker.config.retry_attempts none)
                    f.snapshot_ns
                    row
                    sys
            ])
        go none = p
        go (some row) =
            ends row (retry_insert f.to_snapshot 0 sys.worker.config.retry_attempts none)

    sync_session_health-Pends : Pends c a b d (sync_session_health host f sys)
    unfolding sync_session_health
    sync_session_health-Pends =
        if-elim (Pends c a b d)
          (same host sys.shared.health.degraded sys.worker.last_synced_degraded) _ _ (λ _. p)
          (λ _. after f.to_status _ (listed p.same_config p.same_raws p.same_trades p.same_levels))
      where
        after :
            (o : Option String) (next : System Uuid DateTime)
            → Pends c a b d next
            → Pends c a b d (elim o [ none ↦ next | some e ↦ sys ])
        after none next h = h
        after (some e) next h = p

  -- The storage accepts each list within the attempts of the worker.
  pub record Answering (f : Flush host) (config : RecordingConfig) : Type 0 where
    pub raws : Accepts f.to_raw 0 config.retry_attempts
    pub trades : Accepts f.to_trades 0 config.retry_attempts
    pub levels : Accepts f.to_depth 0 config.retry_attempts

  pub flush_all-Pends :
      (f : Flush host) (sys : System Uuid DateTime)
      → Answering f sys.worker.config
      → Pends sys.worker.config [] [] [] (flush_all host f sys)
  unfolding flush_all
  flush_all-Pends f sys h =
      let c = sys.worker.config in
      let first = flush_raw host f sys in
      let second = flush_trades host f first in
      let third = flush_depth host f second in
      let start : Pends c sys.worker.pending_raw sys.worker.pending_trades sys.worker.pending_depth
          sys =
        listed refl refl refl refl in
      let one =
        flush_raw-Pends f c sys.worker.pending_raw sys.worker.pending_trades
          sys.worker.pending_depth sys start h.raws in
      let two =
        flush_trades-Pends f c [] sys.worker.pending_trades sys.worker.pending_depth first one
          h.trades in
      let three = flush_depth-Pends f c [] [] sys.worker.pending_depth second two h.levels in
      sync_session_health-Pends f c [] [] [] (flush_snapshot host f third)
        (flush_snapshot-Pends f c [] [] [] third three)
