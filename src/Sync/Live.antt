-- ===== src/Sync/Live.antt =====
-- Live events: what becomes of one, and what a run of them applies.
use futures_orderbook.Prelude.{
  ℕ, ◌<◌, ◌≤◌, ◌≡◌, ap, ◌∙◌, ◌≢◌, ◌⊎◌, List, [], ◌∷◌, some, arith, leb, ◌==◌, Bool-cases, inl, inr,
  Bool, true, false, if◌then◌else◌,
}
use futures_orderbook.Prelude.Word.{add64}
use futures_orderbook.Binance.{DepthUpdate}
use futures_orderbook.Sync.State.{ready}
use futures_orderbook.Sync.Defs.{
  Synchronizer, ProcessResult, apply, stale, process_live_event, live_ready, live_by_state,
}
use futures_orderbook.Sync.Buffer.{Linked, last_u}

-- What happened to the event, with the ids that decided it.
abbrev pub LiveOutcome : DepthUpdate → ℕ → Synchronizer × ProcessResult → Type 0
LiveOutcome event u (t, result) =
    ((event.previous_final_update_id ≡ u)
      × (u < event.final_update_id)
      × (result ≡ apply)
      × (t.last_applied_u ≡ some event.final_update_id))
    ⊎ ((event.previous_final_update_id ≢ u)
        × (result ≡ ProcessResult.pu_mismatch)
        × (t.last_applied_u ≡ some u))
    ⊎ ((event.previous_final_update_id ≡ u)
        × (event.final_update_id ≤ u)
        × (result ≡ stale)
        × (t.last_applied_u ≡ some u))

live_ready_outcome :
    (event : DepthUpdate) (u : ℕ) (s : Synchronizer)
    → s.last_applied_u ≡ some u
    → LiveOutcome event u (live_ready event (some u) s)
live_ready_outcome event u s e = elim (Bool-cases (event.previous_final_update_id == u)) [
  | inr gap ↦ inr (inl (ground arith, ground arith, ground arith))
  | inl fits ↦ elim (Bool-cases (leb event.final_update_id u)) [
    | inl old ↦ inr (inr (ground arith, ground arith, ground arith, ground arith))
    | inr new ↦ inl (ground arith, ground arith, ground arith, ground arith)
  ]
]

live_ready_state :
    (event : DepthUpdate) (u : ℕ) (s : Synchronizer)
    → s.state ≡ ready
    → (live_ready event (some u) s).0.state ≡ ready
live_ready_state event u s e = ground arith

abbrev count_event : Synchronizer → Synchronizer
count_event s = record s { events_received = add64 s.events_received 1 }

process_live_event-ready :
    (event : DepthUpdate) (s : Synchronizer) (u : ℕ)
    → s.state ≡ ready
    → s.last_applied_u ≡ some u
    → process_live_event event s ≡ live_ready event (some u) (count_event s)
unfolding process_live_event
process_live_event-ready event s u hr hu =
    ap (λ st. live_by_state st event (count_event s)) hr
    ∙ ap (λ last. live_ready event last (count_event s)) hu

-- In `Ready`, after an event that ended at `u`, there are three outcomes, told apart by the ids: an
-- event with `pu` equal to `u` that ends above `u` is applied and becomes the last one; one with
-- another `pu` is a mismatch; one with `pu` equal to `u` that ends at or below `u` is stale. The last
-- two keep the last applied id, and in all three cases the state stays `Ready`.
pub process_live_event_outcomes :
    (event : DepthUpdate) (s : Synchronizer) (u : ℕ)
    → s.state ≡ ready
    → s.last_applied_u ≡ some u
    → LiveOutcome event u (process_live_event event s)
      × ((process_live_event event s).0.state ≡ ready)
process_live_event_outcomes event s u hr hu =
    rw (process_live_event-ready event s u hr hu)
      (live_ready_outcome event u (count_event s) hu, live_ready_state event u (count_event s) hr)

abbrev is_apply : ProcessResult → Bool
is_apply apply = true
is_apply _ = false

-- A run of live events, and those of them that were to be applied.
unfoldable pub live_all : List DepthUpdate → Synchronizer → Synchronizer × List DepthUpdate
live_all [] s = (s, [])
live_all (event ∷ events) s =
    let (t, result) = process_live_event event s in
    let (end, applied) = live_all events t in
    (end, if is_apply result then event ∷ applied else applied)

-- The ids at which the events end grow, from above `u`.
abbrev pub Grows : ℕ → List DepthUpdate → Type 0
Grows u [] = Unit
Grows u (e ∷ es) = (u < e.final_update_id) × Grows e.final_update_id es

-- From `Ready` after an event that ended at `u`, the events that any run of live events applies are
-- an unbroken chain from `u` on: each one's `pu` is the `u` of the one before it, their ids grow,
-- and the synchronizer remembers the id of the last.
pub live_all_chain :
    (events : List DepthUpdate) (s : Synchronizer) (u : ℕ)
    → s.state ≡ ready
    → s.last_applied_u ≡ some u
    → let (t, applied) = live_all events s in
      Linked u applied
      × Grows u applied
      × (t.last_applied_u ≡ some (last_u u applied))
      × (t.state ≡ ready)
unfolding live_all
live_all_chain [] s u hr hu = (tt, tt, hu, hr)
live_all_chain (event ∷ events) s u hr hu =
    let (outcome, still) = process_live_event_outcomes event s u hr hu in
    elim outcome [
      | inl (fits, above, result, last) ↦
          let (linked, grows, end, state) =
            live_all_chain events _ event.final_update_id still last in
          rw (result, is_apply) ((fits, linked), (above, grows), end, state)
      | inr (inl (gap, result, last)) ↦ rw (result, is_apply) (live_all_chain events _ u still last)
      | inr (inr (fits, below, result, last)) ↦
          rw (result, is_apply) (live_all_chain events _ u still last)
    ]
