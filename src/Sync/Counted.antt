-- ===== src/Sync/Counted.antt =====
-- The counters account for every event received, and do not overflow in a history of fewer than
-- 2^63 calls.
use native.Mathlib.Numerals.{add-one}
use futures_orderbook.Prelude.{
  ℕ, zero, suc, ◌+◌, ◌*◌, ◌≤◌, ◌<◌, ◌^◌, ◌≡◌, refl, List, [], ◌∷◌, Option, none, some, Option-cases,
  inl, inr, Bool-cases, ltb, length, length-append, drop, arith, if-elim,
}
use futures_orderbook.Prelude.Word.{u64_mod, add64}
use futures_orderbook.Binance.{DepthUpdate}
use futures_orderbook.Sync.State.{SyncState, buffering, synchronizing, ready}
use futures_orderbook.Sync.Defs.{
  Synchronizer, new, on_connecting, on_connected, on_reconnecting, on_snapshot_loading,
  buffer_event, process_live_event, live_by_state, live_ready, reconcile, discard_stale,
  bridge_index, take_chain, take_events, breaks, get_elem?, trigger_resync, shutdown, is_buffering,
}
use futures_orderbook.Sync.Reconcile.{reconcile-some, reconcile-none}
use futures_orderbook.Sync.Run.{Call, step, run}

abbrev pub accounted : Synchronizer → ℕ
accounted s = s.events_applied + s.events_ignored + s.sequence_errors + length s.buffer

-- Every event applied, ignored, refused or buffered was received, and `m` at most were received.
pub record IsCounted (m : ℕ) (s : Synchronizer) : Type 0 where
  pub balance : accounted s ≤ s.events_received
  pub bound : s.events_received ≤ m

discard_stale_count :
    (id : ℕ) (buffer : List DepthUpdate) (n : ℕ)
    → n + length buffer < u64_mod
    → let (rest, count) = discard_stale id buffer n in count + length rest ≡ n + length buffer
unfolding discard_stale
discard_stale_count id [] n h = refl
discard_stale_count id (e ∷ buffer) n h = elim (Bool-cases (ltb e.final_update_id id)) [
  | inl old ↦ rw old (omega (arith, discard_stale_count id buffer (add64 n 1) (omega arith)))
  | inr new ↦ rw new
]

length-take_chain :
    (expected : Option ℕ) (rest : List DepthUpdate) (last : Option ℕ)
    → length (take_chain expected rest last).0 ≤ length rest
unfolding take_chain
length-take_chain expected [] last = omega arith
length-take_chain expected (e ∷ rest) last = elim (Bool-cases (breaks expected e)) [
  | inl broken ↦ rw broken (omega arith)
  | inr fits ↦
      rw fits
        (omega (arith, length-take_chain (some e.final_update_id) rest (some e.final_update_id)))
]

drop_room :
    (k : ℕ) (buffer : List DepthUpdate) (e : DepthUpdate)
    → get_elem? buffer k ≡ some e
    → length (drop (suc k) buffer) < length buffer
drop_room k [] e h = cc
drop_room zero (x ∷ buffer) e h = omega arith
drop_room (suc k) (x ∷ buffer) e h = omega (arith, drop_room k buffer e h)

length-drop-le : (k : ℕ) (buffer : List DepthUpdate) → length (drop k buffer) ≤ length buffer
length-drop-le zero buffer = omega arith
length-drop-le (suc k) [] = omega arith
length-drop-le (suc k) (x ∷ buffer) = omega (arith, length-drop-le k buffer)

length-take_events :
    (k : ℕ) (buffer : List DepthUpdate) (last : Option ℕ)
    → length (take_events k buffer last).0 ≤ length buffer
length-take_events k buffer last = elim (Option-cases (get_elem? buffer k)) [
  | inl e ↦
      rw (e, take_events)
        (omega
          (arith, length-take_chain none (drop (k + 1) buffer) last, length-drop-le (k + 1) buffer))
  | inr (first, e) ↦
      rw (e, take_events)
        (rw add-one (
          omega (
            arith,
            length-take_chain none (drop (suc k) buffer) (some first.final_update_id),
            drop_room k buffer first e,
          )))
]

buffer_event-IsCounted :
    (m : ℕ) (event : DepthUpdate) (s : Synchronizer)
    → m + 1 < u64_mod
    → IsCounted m s
    → IsCounted (m + 1) (buffer_event event s)
unfolding buffer_event
buffer_event-IsCounted m event s room v =
    if-elim (IsCounted (m + 1)) (is_buffering s.state) _ s
      (λ _. record {
        balance = omega (arith, length-append s.buffer (event ∷ []), v.balance, v.bound);
        bound = omega (arith, v.bound);
      })
      (λ _. record { balance = v.balance; bound = omega (arith, v.bound) })

-- The received event is counted, and is yet to be accounted for.
live_by_state-IsCounted :
    (m : ℕ) (st : SyncState) (event : DepthUpdate) (s : Synchronizer)
    → m + 1 < u64_mod
    → accounted s < s.events_received
    → s.events_received ≤ m
    → IsCounted (m + 1) (live_by_state st event s).0
live_by_state-IsCounted m ready event s room b r = live_ready-IsCounted s.last_applied_u
  where
    live_ready-IsCounted : (last : Option ℕ) → IsCounted (m + 1) (live_ready event last s).0
    live_ready-IsCounted none = record { balance = omega arith; bound = omega arith }
    live_ready-IsCounted (some prev_u) = ground arith
live_by_state-IsCounted m buffering event s room b r =
    buffer_event-IsCounted m event s room (record { balance = omega arith; bound = r })
live_by_state-IsCounted m synchronizing event s room b r = record {
  balance = omega arith;
  bound = omega arith;
}
live_by_state-IsCounted m _ event s room b r = record { balance = omega arith; bound = omega arith }

module _ (m : ℕ) (s : Synchronizer) (room : m + 2 < u64_mod) (v : IsCounted m s) where
  reconcile-IsCounted : (id : ℕ) → IsCounted (m + 2) (reconcile id s).0
  reconcile-IsCounted id =
      let count = discard_stale_count id s.buffer s.events_ignored (omega arith) in
      elim (Option-cases (bridge_index id 0 (discard_stale id s.buffer s.events_ignored).0)) [
        | inl e ↦ rw (reconcile-none id s e) (record { balance = omega arith; bound = omega arith })
        | inr (k, e) ↦ rw (reconcile-some id s k e) (record {
          balance = omega (
            arith,
            length-take_events k (discard_stale id s.buffer s.events_ignored).0 s.last_applied_u,
          );
          bound = omega arith;
        })
      ]

  -- A call receives two events at most: `process_live_event` counts a buffered event twice.
  step-IsCounted : (c : Call) → IsCounted (m + 2) (step c s)
  unfolding step on_connecting on_connected on_reconnecting on_snapshot_loading trigger_resync
      shutdown process_live_event
  step-IsCounted Call.connecting = record { balance = v.balance; bound = omega arith }
  step-IsCounted Call.connected = record { balance = omega arith; bound = omega arith }
  step-IsCounted Call.reconnecting = record { balance = v.balance; bound = omega arith }
  step-IsCounted Call.snapshot_loading = record { balance = v.balance; bound = omega arith }
  step-IsCounted Call.resync = record { balance = omega (arith, v.balance); bound = omega arith }
  step-IsCounted Call.stop = record { balance = v.balance; bound = omega arith }
  step-IsCounted (Call.buffer event) =
      let w = buffer_event-IsCounted m event s (omega arith) v in
      record { balance = w.balance; bound = omega (arith, w.bound) }
  step-IsCounted (Call.live event) =
      let w =
        live_by_state-IsCounted (m + 1) s.state event
          (record s { events_received = add64 s.events_received 1 }) (omega arith)
          (omega (arith, v.balance, v.bound)) (omega (arith, v.bound)) in
      record { balance = w.balance; bound = omega (arith, w.bound) }
  step-IsCounted (Call.reconciles id) = reconcile-IsCounted id

run-IsCounted :
    (cs : List Call) (m : ℕ) (s : Synchronizer)
    → m + 2 * length cs < u64_mod
    → IsCounted m s
    → IsCounted (m + 2 * length cs) (run cs s)
unfolding run
run-IsCounted [] m s room v = record { balance = v.balance; bound = omega (arith, v.bound) }
run-IsCounted (c ∷ cs) m s room v =
    let w =
      run-IsCounted cs (m + 2) (step c s) (omega arith) (step-IsCounted m s (omega arith) v c) in
    record { balance = w.balance; bound = omega (arith, w.bound) }

-- In a history of fewer than 2^63 calls from the start, the events applied, ignored, refused for
-- their `pu` and still buffered are together at most the events received, and these are at most
-- two for each call, so that no counter of events wraps.
pub run-new-IsCounted :
    (cs : List Call) → length cs < 2 ^ 63 → IsCounted (2 * length cs) (run cs new)
unfolding new
run-new-IsCounted cs few =
    let w =
      run-IsCounted cs 0 new (omega arith)
        (record { balance = omega arith; bound = omega arith }) in
    record { balance = w.balance; bound = omega (arith, w.bound) }
