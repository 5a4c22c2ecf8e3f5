-- ===== src/Recording/Drained.antt =====
-- src/recording/recorder.rs, the shutdown of `run_worker` with a storage that answers in time.
use futures_orderbook.Prelude.{◌≡◌, refl, sym, ◌∙◌, ap, subst, List, [], ◌∷◌, ◌++◌, false, if_false}
use mathlib.Core.List.{append-nil}
use futures_orderbook.Level.Floats.{F64}
use futures_orderbook.Recording.Host.{Host}
use futures_orderbook.Recording.Rows.{Record, raw, trade, depth, snapshot}
use futures_orderbook.Recording.Worker.{
  RecordingConfig, Worker, System, Flush, pend, enqueue, flush_all,
}
use futures_orderbook.Recording.Run.{Step, shutdown, ended, drain, step, run, start}
use futures_orderbook.Recording.Kept.{raw_of, trade_of, levels_of, gather, flush_all-Keeps}
use futures_orderbook.Recording.Delivered.{sent_all, step-Extends, run-Delivers}
use futures_orderbook.Recording.Lanes.{held_raw, held_trades, held_levels}
use futures_orderbook.Recording.Emptied.{Pends, Answering, flush_all-Pends}

module _ (host : Host) where
  open host use {Uuid, DateTime}

  module _ (fl : F64) where
    drain-config :
        (q : List (Record Uuid DateTime)) (sys : System Uuid DateTime)
        → (drain host fl q sys).worker.config ≡ sys.worker.config
    unfolding drain enqueue
    drain-config [] sys = refl
    drain-config (r ∷ rest) sys =
        let next = enqueue host r (record sys { shared = record sys.shared { queue = rest } }) in
        drain-config rest next ∙ pend-config r sys.worker
      where
        pend-config :
            (r : Record Uuid DateTime) (w : Worker Uuid DateTime)
            → (pend host r w).config ≡ w.config
        pend-config (raw row) w = refl
        pend-config (trade row) w = refl
        pend-config (depth rows) w = refl
        pend-config (snapshot row) w = refl

    drain-queue :
        (q : List (Record Uuid DateTime)) (sys : System Uuid DateTime)
        → (drain host fl q sys).shared.queue ≡ []
    unfolding drain
    drain-queue [] sys = refl
    drain-queue (r ∷ rest) sys = drain-queue rest _

    -- A shutdown of a worker that still runs leaves nothing pending or queued.
    shutdown-Pends :
        (f : Flush host) (sys : System Uuid DateTime)
        → sys.shared.closed ≡ false
        → Answering host f sys.worker.config
        → Pends host sys.worker.config [] [] [] (step host fl (shutdown f) sys)
          × ((step host fl (shutdown f) sys).shared.queue ≡ [])
    unfolding step
    shutdown-Pends f sys open_ h =
        let drained = drain host fl sys.shared.queue sys in
        let same_config = drain-config sys.shared.queue sys in
        let p =
          flush_all-Pends host f drained (subst (λ c. Answering host f c) (sym same_config) h) in
        let next = ended host fl (flush_all host f drained) in
        subst (λ t. Pends host sys.worker.config [] [] [] t × (t.shared.queue ≡ []))
          (sym (if_false sys next open_))
          (
            record {
              same_config = p.same_config ∙ same_config;
              same_raws = p.same_raws;
              same_trades = p.same_trades;
              same_levels = p.same_levels;
            },
            (flush_all-Keeps host f drained).queue ∙ drain-queue sys.shared.queue sys,
          )

    -- The rows of `sent` are what the storage holds, and none is pending or queued.
    pub record Stores (sent : List (Record Uuid DateTime)) (sys : System Uuid DateTime)
        : Type 0 where
      pub raws : sys.store.raw ≡ gather raw_of sent
      pub trades : sys.store.trades ≡ gather trade_of sent
      pub levels : sys.store.depth ≡ gather levels_of sent
      pub drained : sys.shared.queue ≡ []
      pub flushed : Pends host sys.worker.config [] [] [] sys

    held :
        {A : Type 0} (of : Record Uuid DateTime → List A) (stored pending : List A)
        (q : List (Record Uuid DateTime))
        → pending ≡ []
        → q ≡ []
        → stored ≡ (stored ++ pending) ++ gather of q
    held of stored pending q e f = sym (
        ap (λ l. (stored ++ pending) ++ gather of l) f
        ∙ append-nil (stored ++ pending)
        ∙ ap (λ l. stored ++ l) e
        ∙ append-nil stored)

    -- After any history of a recorder since its start at whose end the worker still runs, when
    -- each of the three inserts of the shutdown's flush succeeds within the attempts that the
    -- configuration allows: once the shutdown is done, the raw events, trades and level changes
    -- that the storage holds are those that the calls ever put in the queue, in that order, each
    -- once; no row of these kinds stays pending, and the queue is empty.
    pub shutdown-Stores :
        (session_id : Uuid) (config : RecordingConfig) (steps : List (Step host fl))
        (f : Flush host)
        → let first = start host fl session_id config in
          let last = run host fl steps first in
          last.shared.closed ≡ false
          → Answering host f last.worker.config
          → Stores (sent_all host fl steps first) (step host fl (shutdown f) last)
    shutdown-Stores session_id config steps f open_ h =
        let first = start host fl session_id config in
        let last = run host fl steps first in
        let finished = step host fl (shutdown f) last in
        let (p, q) = shutdown-Pends f last open_ h in
        let before = run-Delivers host fl session_id config steps in
        let moved = step-Extends host fl (shutdown f) last in
        record {
          raws =
              held raw_of finished.store.raw finished.worker.pending_raw finished.shared.queue
                p.same_raws q
              ∙ moved.raws
              ∙ append-nil (held_raw last)
              ∙ before.raws;
          trades =
              held trade_of finished.store.trades finished.worker.pending_trades
                finished.shared.queue p.same_trades q
              ∙ moved.trades
              ∙ append-nil (held_trades last)
              ∙ before.trades;
          levels =
              held levels_of finished.store.depth finished.worker.pending_depth
                finished.shared.queue p.same_levels q
              ∙ moved.levels
              ∙ append-nil (held_levels last)
              ∙ before.levels;
          drained = q;
          flushed = record {
            same_config = refl;
            same_raws = p.same_raws;
            same_trades = p.same_trades;
            same_levels = p.same_levels;
          };
        }
