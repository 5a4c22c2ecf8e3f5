-- ===== src/Examples/Syncs.antt =====
-- The synchronizer at concrete events.
use futures_orderbook.Prelude.{ℕ, ◌≡◌, ◌⊎◌, refl, List, [], ◌∷◌, ◌++◌, some, ok, err, true, arith}
use futures_orderbook.Binance.{DepthUpdate}
use futures_orderbook.Sync.State.{ready, buffering}
use futures_orderbook.Sync.Defs.{
  Synchronizer, new, bridges, no_bridging_event, process_live_event, reconcile, on_connected,
  buffer_event, discard_stale, bridge_index, take_chain,
}
use futures_orderbook.Sync.Buffer.{IsUnbridged, Linked, last_u}
use futures_orderbook.Sync.Reconcile.{IsReconciled, reconcile_outcomes, reconcile_accepts_gap}
use futures_orderbook.Sync.Live.{
  LiveOutcome, Grows, live_all, live_all_chain, process_live_event_outcomes,
}
use futures_orderbook.Sync.Run.{Call, connected, buffer, live, reconciles, step, run}
use futures_orderbook.Sync.Coherent.{run-new-IsCoherent}
use futures_orderbook.Sync.Counted.{IsCounted, run-new-IsCounted}
use futures_orderbook.Examples.Data.{event, sync_in}

-- The third does not follow the second.
abbrev events : List DepthUpdate
events = event 11 12 10 [] [] ∷ event 13 14 12 [] [] ∷ event 20 21 19 [] [] ∷ []

live_all_chain_example :
    let (t, applied) = live_all events (sync_in ready []) in
    Linked 10 applied
    × Grows 10 applied
    × (t.last_applied_u ≡ some (last_u 10 applied))
    × (t.state ≡ ready)
live_all_chain_example = live_all_chain events (sync_in ready []) 10 refl refl

process_live_event_outcomes_example :
    LiveOutcome
      (event 20 21 19 [] [])
      10
      (process_live_event (event 20 21 19 [] []) (sync_in ready []))
    × ((process_live_event (event 20 21 19 [] []) (sync_in ready [])).0.state ≡ ready)
process_live_event_outcomes_example =
    process_live_event_outcomes (event 20 21 19 [] []) (sync_in ready []) 10 refl refl

abbrev waiting : Synchronizer
waiting = sync_in buffering (event 8 9 7 [] [] ∷ events)

reconcile_outcomes_example :
    ((t : Synchronizer) × (taken : List DepthUpdate) × (reconcile 11 waiting ≡ (t, ok taken))
      × IsReconciled 11 waiting.buffer taken t.last_applied_u
      × (t.state ≡ ready)
      × (t.buffer ≡ []))
    ⊎ (IsUnbridged 11 waiting.buffer
        × ((reconcile 11 waiting).1 ≡ err no_bridging_event)
        × ((reconcile 11 waiting).0.state ≡ waiting.state)
        × ((reconcile 11 waiting).0.last_applied_u ≡ waiting.last_applied_u)
        × ((stale : List DepthUpdate) × (waiting.buffer
              ≡ stale ++ (reconcile 11 waiting).0.buffer)))
reconcile_outcomes_example = reconcile_outcomes 11 waiting

abbrev bridge : DepthUpdate
bridge = event 9 12 8 [] []

abbrev after_gap : DepthUpdate
after_gap = event 20 21 19 [] []

bridge-bridges : bridges 10 bridge ≡ true
unfolding bridges
bridge-bridges = refl

reconcile_accepts_gap_example :
    ((reconcile 10 (sync_in buffering (bridge ∷ after_gap ∷ []))).1 ≡ ok (bridge ∷ after_gap ∷ []))
    × ¬ Linked 12 (after_gap ∷ [])
reconcile_accepts_gap_example =
    reconcile_accepts_gap 10 (sync_in buffering (bridge ∷ after_gap ∷ [])) bridge after_gap refl
      bridge-bridges (omega arith)

abbrev calls : List Call
calls = connected ∷ buffer bridge ∷ reconciles 10 ∷ live (event 13 14 12 [] []) ∷ []

calls_ready : (run calls new).state ≡ ready
unfolding run step new on_connected buffer_event reconcile discard_stale bridge_index bridges
    process_live_event take_chain
calls_ready = refl

run-new-IsCoherent_example :
    ((u : ℕ) × ((run calls new).last_applied_u ≡ some u)) × ((run calls new).buffer ≡ [])
run-new-IsCoherent_example = run-new-IsCoherent calls calls_ready

run-new-IsCounted_example : IsCounted 8 (run calls new)
run-new-IsCounted_example = run-new-IsCounted calls (omega arith)
