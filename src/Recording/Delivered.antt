-- ===== src/Recording/Delivered.antt =====
-- The rows that the recorder puts in the queue are those that are stored, pending or still queued.
use futures_orderbook.Prelude.{
  ◌≡◌, refl, sym, ◌∙◌, ap, List, [], ◌∷◌, ◌++◌, Bool, if-elim, drop, length, leb,
}
use mathlib.Core.List.{append-nil}
use futures_orderbook.Level.Floats.{F64}
use futures_orderbook.Recording.Host.{Host}
use futures_orderbook.Recording.Metrics.{RecorderMetrics}
use futures_orderbook.Recording.Rows.{LevelChangeRow, Record, depth}
use futures_orderbook.Recording.Recorder.{
  Shared, send, send_or_drop, send_rows, record_raw, record_trade, record_depth_event,
  record_snapshot, record_marker_rejected, record_invalid_rejected,
}
use futures_orderbook.Recording.Worker.{
  RecordingConfig, System, Flush, enqueue, threshold_reached, flush_all,
}
use futures_orderbook.Recording.Run.{
  Call, raw_event, new_trade, depth_event, book_snapshot, marker, invalid, call, Step, calls,
  receive, tick, hang_up, shutdown, on_record, on_end, ended, drain, branch, step, run, start,
}
use futures_orderbook.Recording.Kept.{raw_of, trade_of, levels_of, gather, flush_all-Keeps}
use futures_orderbook.Recording.Lanes.{
  held_raw, held_trades, held_levels, Extends, Extends-refl, Extends-trans, Keeps-Extends, called,
  popped, enqueue-Extends, drain-Extends,
}

module _ (host : Host) (fl : F64) where
  open host use {Uuid, DateTime}

  -- What a call puts in the queue.
  unfoldable pub sent_by : Call → Shared Uuid DateTime → List (Record Uuid DateTime)
  sent_by c s = drop (length s.queue) (call host fl c s).queue

  abbrev Appended : List (Record Uuid DateTime) → Shared Uuid DateTime → Type 0
  Appended q t = (new : List (Record Uuid DateTime)) × (t.queue ≡ q ++ new)

  send-Appended :
      (r : Record Uuid DateTime) (s : Shared Uuid DateTime) → Appended s.queue (send host r s).0
  unfolding send
  send-Appended r s =
      if-elim (λ (p : Shared Uuid DateTime × Bool). Appended s.queue p.0) s.closed _ _
        (λ _. ([], sym (append-nil s.queue)))
        (λ _.
          if-elim (λ (p : Shared Uuid DateTime × Bool). Appended s.queue p.0)
            (leb s.capacity (length s.queue)) _ _ (λ _. ([], sym (append-nil s.queue)))
            (λ _. (r ∷ [], refl)))

  send_or_drop-Appended :
      (dropped : RecorderMetrics → RecorderMetrics) (r : Record Uuid DateTime)
      (s : Shared Uuid DateTime)
      → Appended s.queue (send_or_drop host dropped r s)
  unfolding send_or_drop
  send_or_drop-Appended dropped r s =
      if-elim (Appended s.queue) (send host r s).1 _ _ (λ _. send-Appended r s)
        (λ _. send-Appended r s)

  send_rows-Appended :
      (rows : List (LevelChangeRow Uuid DateTime)) (s : Shared Uuid DateTime)
      → Appended s.queue (send_rows host fl rows s)
  send_rows-Appended [] s = ([], sym (append-nil s.queue))
  send_rows-Appended (r ∷ rows) s = send_or_drop-Appended _ (depth (r ∷ rows)) s

  call-Appended : (c : Call) (s : Shared Uuid DateTime) → Appended s.queue (call host fl c s)
  unfolding record_raw record_trade record_depth_event record_snapshot record_marker_rejected
      record_invalid_rejected
  call-Appended (raw_event symbol stream payload e t l) s = send_or_drop-Appended _ _ _
  call-Appended (new_trade t) s = send_or_drop-Appended _ _ _
  call-Appended (depth_event event local_ns) s = send_rows-Appended _ _
  call-Appended (book_snapshot symbol id ts bids asks) s = send-Appended _ _
  call-Appended marker s = ([], sym (append-nil s.queue))
  call-Appended invalid s = ([], sym (append-nil s.queue))

  drop-length : (q new : List (Record Uuid DateTime)) → drop (length q) (q ++ new) ≡ new
  drop-length [] new = refl
  drop-length (r ∷ q) new = drop-length q new

  call-queue :
      (c : Call) (s : Shared Uuid DateTime) → (call host fl c s).queue ≡ s.queue ++ sent_by c s
  unfolding sent_by
  call-queue c s =
      let (new, e) = call-Appended c s in
      let cut = ap (drop (length s.queue)) e ∙ drop-length s.queue new in
      e ∙ ap (λ l. s.queue ++ l) (sym cut)

  -- What a step, and a history, put in the queue.
  abbrev pub sent_in : Step host fl → System Uuid DateTime → List (Record Uuid DateTime)
  sent_in (calls c) sys = sent_by c sys.shared
  sent_in _ sys = []

  unfoldable pub sent_all : List (Step host fl) → System Uuid DateTime → List (Record Uuid DateTime)
  sent_all [] sys = []
  sent_all (s ∷ steps) sys = sent_in s sys ++ sent_all steps (step host fl s sys)

  flush_all-Extends :
      (f : Flush host) (sys next : System Uuid DateTime)
      → Extends [] sys next
      → Extends [] sys (flush_all host f next)
  flush_all-Extends f sys next h =
      Extends-trans [] [] sys next (flush_all host f next) h
        (Keeps-Extends next (flush_all host f next) (flush_all-Keeps host f next))

  on_record-Extends :
      (f : Flush host) (q : List (Record Uuid DateTime)) (sys : System Uuid DateTime)
      → sys.shared.queue ≡ q
      → Extends [] sys (on_record host fl f q sys)
  on_record-Extends f [] sys e = Extends-refl sys
  on_record-Extends f (r ∷ rest) sys e =
      let next = enqueue host r (popped host fl rest sys) in
      let moved = enqueue-Extends host fl r rest sys e in
      if-elim (Extends [] sys) (threshold_reached host next.worker) _ _
        (λ _. flush_all-Extends f sys next moved) (λ _. moved)

  ended-Extends :
      (sys next : System Uuid DateTime) → Extends [] sys next → Extends [] sys (ended host fl next)
  ended-Extends sys next h = record { raws = h.raws; trades = h.trades; levels = h.levels }

  on_end-Extends :
      (f : Flush host) (q : List (Record Uuid DateTime)) (sys : System Uuid DateTime)
      → Extends [] sys (on_end host fl f q sys)
  on_end-Extends f [] sys =
      ended-Extends sys (flush_all host f sys) (flush_all-Extends f sys sys (Extends-refl sys))
  on_end-Extends f (r ∷ rest) sys = Extends-refl sys

  branch-Extends :
      (s : Step host fl) (sys : System Uuid DateTime)
      → Extends (sent_in s sys) sys (branch host fl s sys)
  branch-Extends (calls c) sys =
      called sys (call host fl c sys.shared) (sent_by c sys.shared) (call-queue c sys.shared)
  branch-Extends (receive f) sys = on_record-Extends f sys.shared.queue sys refl
  branch-Extends (tick f) sys = flush_all-Extends f sys sys (Extends-refl sys)
  branch-Extends (hang_up f) sys = on_end-Extends f sys.shared.queue sys
  branch-Extends (shutdown f) sys =
      let drained = drain host fl sys.shared.queue sys in
      ended-Extends sys (flush_all host f drained)
        (flush_all-Extends f sys drained (drain-Extends host fl sys.shared.queue sys refl))

  pub step-Extends :
      (s : Step host fl) (sys : System Uuid DateTime)
      → Extends (sent_in s sys) sys (step host fl s sys)
  unfolding step
  step-Extends (calls c) sys = branch-Extends (calls c) sys
  step-Extends (receive f) sys =
      if-elim (Extends [] sys) sys.shared.closed _ _ (λ _. Extends-refl sys)
        (λ _. branch-Extends (receive f) sys)
  step-Extends (tick f) sys =
      if-elim (Extends [] sys) sys.shared.closed _ _ (λ _. Extends-refl sys)
        (λ _. branch-Extends (tick f) sys)
  step-Extends (hang_up f) sys =
      if-elim (Extends [] sys) sys.shared.closed _ _ (λ _. Extends-refl sys)
        (λ _. branch-Extends (hang_up f) sys)
  step-Extends (shutdown f) sys =
      if-elim (Extends [] sys) sys.shared.closed _ _ (λ _. Extends-refl sys)
        (λ _. branch-Extends (shutdown f) sys)

  run-Extends :
      (steps : List (Step host fl)) (sys : System Uuid DateTime)
      → Extends (sent_all steps sys) sys (run host fl steps sys)
  unfolding sent_all run
  run-Extends [] sys = Extends-refl sys
  run-Extends (s ∷ steps) sys =
      let next = step host fl s sys in
      Extends-trans (sent_in s sys) (sent_all steps next) sys next (run host fl steps next)
        (step-Extends s sys) (run-Extends steps next)

  -- Stored, pending and queued rows are those of `sent`.
  pub record Delivers (sent : List (Record Uuid DateTime)) (sys : System Uuid DateTime)
      : Type 0 where
    pub raws : held_raw sys ≡ gather raw_of sent
    pub trades : held_trades sys ≡ gather trade_of sent
    pub levels : held_levels sys ≡ gather levels_of sent

  -- From the start of a recorder, in any order of its calls and of the worker's steps, whatever the
  -- storage answers and however often an insert fails: the rows that were stored, then those that
  -- are pending, then those in the queue, are the rows that the calls put in the queue, in that
  -- order, each once; this holds of raw events, of trades and of level changes.
  pub run-Delivers :
      (session_id : Uuid) (config : RecordingConfig) (steps : List (Step host fl))
      → let first = start host fl session_id config in
        Delivers (sent_all steps first) (run host fl steps first)
  unfolding start
  run-Delivers session_id config steps =
      let h = run-Extends steps (start host fl session_id config) in
      record { raws = h.raws; trades = h.trades; levels = h.levels }
