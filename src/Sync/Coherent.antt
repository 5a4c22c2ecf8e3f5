-- ===== src/Sync/Coherent.antt =====
-- In `Ready` there is always an event to compare the next one with, and nothing is left in the
-- buffer: an invariant of every history of calls.
use futures_orderbook.Prelude.{
  ℕ, ◌≡◌, refl, sym, ◌∙◌, ◌⊎◌, subst, List, [], ◌∷◌, ◌++◌, Option, none, some, inl, inr, true,
  arith, if-elim,
}
use futures_orderbook.Binance.{DepthUpdate}
use futures_orderbook.Sync.State.{
  SyncState, disconnected, connecting, buffering, snapshot_loading, synchronizing, ready,
  resync_required, reconnecting, stopping,
}
use futures_orderbook.Sync.Defs.{
  Synchronizer, new, on_connecting, on_connected, on_reconnecting, on_snapshot_loading,
  buffer_event, process_live_event, live_by_state, live_ready, reconcile, trigger_resync, shutdown,
  is_buffering,
}
use futures_orderbook.Sync.Reconcile.{reconcile_outcomes}
use futures_orderbook.Sync.Run.{Call, step, run}

abbrev Coherent : SyncState → Option ℕ → List DepthUpdate → Type 0
Coherent ready last buffer = (u : ℕ) × (last ≡ some u) × (buffer ≡ [])
Coherent _ last buffer = Unit {0}

abbrev pub IsCoherent : Synchronizer → Type 0
IsCoherent s = Coherent s.state s.last_applied_u s.buffer

at_state :
    (st x : SyncState) (last : Option ℕ) (buffer : List DepthUpdate)
    → x ≡ st
    → Coherent st last buffer
    → Coherent x last buffer
at_state st x last buffer e c = subst (λ y. Coherent y last buffer) (sym e) c

Coherent-buffering :
    (st : SyncState) (last : Option ℕ) (buffer : List DepthUpdate)
    → is_buffering st ≡ true
    → Coherent st last buffer
Coherent-buffering buffering last buffer h = tt
Coherent-buffering ready last buffer h = cc
Coherent-buffering _ last buffer h = tt

buffer_event-IsCoherent :
    (event : DepthUpdate) (s : Synchronizer) → IsCoherent s → IsCoherent (buffer_event event s)
unfolding buffer_event
buffer_event-IsCoherent event s v =
    if-elim IsCoherent (is_buffering s.state) _ s (Coherent-buffering s.state _ _) (λ _. v)

live_ready_keeps :
    (event : DepthUpdate) (last : Option ℕ) (s : Synchronizer)
    → let t = (live_ready event last s).0 in
      (t.state ≡ s.state)
      × (t.buffer ≡ s.buffer)
      × ((t.last_applied_u ≡ s.last_applied_u) ⊎ (t.last_applied_u ≡ some event.final_update_id))
live_ready_keeps event none s = (refl, refl, inr refl)
live_ready_keeps event (some prev_u) s = ground arith

live_ready-IsCoherent :
    (event : DepthUpdate) (last : Option ℕ) (s : Synchronizer) (u : ℕ)
    → s.state ≡ ready
    → s.last_applied_u ≡ some u
    → s.buffer ≡ []
    → IsCoherent (live_ready event last s).0
live_ready-IsCoherent event last s u es el eb =
    let (same_state, same_buffer, applied) = live_ready_keeps event last s in
    at_state ready _ _ _ (same_state ∙ es) (elim applied [
      | inl same ↦ (u, same ∙ el, same_buffer ∙ eb)
      | inr new ↦ (event.final_update_id, new, same_buffer ∙ eb)
    ])

live_by_state-IsCoherent :
    (st : SyncState) (event : DepthUpdate) (s : Synchronizer)
    → s.state ≡ st
    → Coherent st s.last_applied_u s.buffer
    → IsCoherent (live_by_state st event s).0
live_by_state-IsCoherent ready event s e c =
    live_ready-IsCoherent event s.last_applied_u s c.0 e c.1 c.2
live_by_state-IsCoherent buffering event s e c =
    buffer_event-IsCoherent event s (at_state buffering _ _ _ e tt)
live_by_state-IsCoherent synchronizing event s e c = at_state synchronizing _ _ _ e tt
live_by_state-IsCoherent disconnected event s e c = at_state disconnected _ _ _ e tt
live_by_state-IsCoherent connecting event s e c = at_state connecting _ _ _ e tt
live_by_state-IsCoherent snapshot_loading event s e c = at_state snapshot_loading _ _ _ e tt
live_by_state-IsCoherent resync_required event s e c = at_state resync_required _ _ _ e tt
live_by_state-IsCoherent reconnecting event s e c = at_state reconnecting _ _ _ e tt
live_by_state-IsCoherent stopping event s e c = at_state stopping _ _ _ e tt

append_nil : (xs ys : List DepthUpdate) → xs ++ ys ≡ [] → ys ≡ []
append_nil [] ys e = e
append_nil (x ∷ xs) ys e = cc

Coherent-shrink :
    (st : SyncState) (last next : Option ℕ) (buffer rest : List DepthUpdate)
    → next ≡ last
    → (buffer ≡ [] → rest ≡ [])
    → Coherent st last buffer
    → Coherent st next rest
Coherent-shrink ready last next buffer rest e f (u, el, eb) = (u, e ∙ el, f eb)
Coherent-shrink disconnected last next buffer rest e f c = tt
Coherent-shrink _ last next buffer rest e f c = tt

reconcile-IsCoherent : (id : ℕ) (s : Synchronizer) → IsCoherent s → IsCoherent (reconcile id s).0
reconcile-IsCoherent id s v = elim (reconcile_outcomes id s) [
  | inl (t, events, e, r, is_ready, empty) ↦
      rw e (at_state ready _ _ _ is_ready (_, r.applied, empty))
  | inr (none_hit, e, same_state, same_last, (stale, cut)) ↦
      let rest = (reconcile id s).0.buffer in
      at_state s.state _ _ _ same_state (
        Coherent-shrink s.state _ _ s.buffer rest same_last
          (λ h. append_nil stale rest (sym cut ∙ h)) v)
]

-- Each call keeps the invariant.
pub step-IsCoherent : (c : Call) (s : Synchronizer) → IsCoherent s → IsCoherent (step c s)
unfolding step on_connecting on_connected on_reconnecting on_snapshot_loading trigger_resync
    shutdown process_live_event
step-IsCoherent Call.connecting s v = tt
step-IsCoherent Call.connected s v = tt
step-IsCoherent Call.reconnecting s v = tt
step-IsCoherent Call.snapshot_loading s v = tt
step-IsCoherent Call.resync s v = tt
step-IsCoherent Call.stop s v = tt
step-IsCoherent (Call.buffer event) s v = buffer_event-IsCoherent event s v
step-IsCoherent (Call.live event) s v = live_by_state-IsCoherent s.state event _ refl v
step-IsCoherent (Call.reconciles id) s v = reconcile-IsCoherent id s v

run-IsCoherent : (cs : List Call) (s : Synchronizer) → IsCoherent s → IsCoherent (run cs s)
unfolding run
run-IsCoherent [] s v = v
run-IsCoherent (c ∷ cs) s v = run-IsCoherent cs (step c s) (step-IsCoherent c s v)

-- Whatever calls were made since the start: in `Ready` there is a last applied event, so that every
-- live event is compared with one, and the buffer is empty.
pub run-new-IsCoherent :
    (cs : List Call)
    → (run cs new).state ≡ ready
    → ((u : ℕ) × ((run cs new).last_applied_u ≡ some u)) × ((run cs new).buffer ≡ [])
unfolding new
run-new-IsCoherent cs e =
    let c = run-IsCoherent cs new tt in
    let (u, last, empty) =
      subst (λ x. Coherent x (run cs new).last_applied_u (run cs new).buffer) e c in
    ((u, last), empty)
