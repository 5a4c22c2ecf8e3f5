-- ===== src/Sync/Reconcile.antt =====
-- What `reconcile` returns, on both outcomes, in terms of the buffer that it was given.
use mathlib.Core.List.{append_assoc}
use native.Mathlib.Numerals.{add-one}
use futures_orderbook.Prelude.{
  ℕ, ◌≡◌, refl, ap, ap₂, sym, ◌∙◌, ◌≢◌, ◌⊎◌, subst, inl, inr, List, [], ◌∷◌, ◌++◌, true, false,
  Option, none, some, Option-cases, All-append, length, ok, err, arith,
}
use futures_orderbook.Prelude.Word.{add64}
use futures_orderbook.Binance.{DepthUpdate}
use futures_orderbook.Sync.State.{ready}
use futures_orderbook.Sync.Defs.{
  Synchronizer, no_bridging_event, discard_stale, bridges, bridge_index, breaks, take_chain,
  take_events, reconcile,
}
use futures_orderbook.Sync.Buffer.{
  IsUnbridged, Linked, last_u, Stops, discard_stale_lem, bridge_index-some, bridge_index-none,
  get_elem?-append, drop-append, take_chain-some,
}

-- The events after the bridge are linked to one another. The first of them is not compared with
-- the bridge.
abbrev pub FollowsBridge : List DepthUpdate → Type 0
FollowsBridge [] = Unit
FollowsBridge (e ∷ es) = Linked e.final_update_id es

-- Where the chain after the bridge stops: only at the end of the buffer, or at an event that does
-- not link up.
abbrev pub StopsAfter : List DepthUpdate → List DepthUpdate → Type 0
StopsAfter [] left = left ≡ []
StopsAfter (e ∷ es) left = Stops (last_u e.final_update_id es) left

-- How the returned events lie in the buffer.
pub record IsReconciled (id : ℕ) (buffer events : List DepthUpdate) (last : Option ℕ) : Type 0 where
  pub skipped : List DepthUpdate
  pub bridge : DepthUpdate
  pub taken : List DepthUpdate
  pub left : List DepthUpdate
  pub whole : buffer ≡ skipped ++ bridge ∷ (taken ++ left)
  pub unbridged : IsUnbridged id skipped
  pub bridged : bridges id bridge ≡ true
  pub returned : events ≡ bridge ∷ taken
  pub follows : FollowsBridge taken
  pub stops : StopsAfter taken left
  pub applied : last ≡ some (last_u bridge.final_update_id taken)

pub take_chain-none :
    (u : ℕ) (rest : List DepthUpdate)
    → let (taken, end) = take_chain none rest (some u) in
      ((left : List DepthUpdate) × (rest ≡ taken ++ left) × StopsAfter taken left)
      × FollowsBridge taken
      × (end ≡ some (last_u u taken))
unfolding take_chain breaks
take_chain-none u [] = (([], refl, refl), tt, refl)
take_chain-none u (e ∷ rest) =
    let (linked, (left, whole, stops), end) = take_chain-some e.final_update_id rest in
    ((left, ap (◌∷◌ e) whole, stops), linked, end)

pub take_events-append :
    (pre : List DepthUpdate) (bridge : DepthUpdate) (rest : List DepthUpdate) (last : Option ℕ)
    → let (taken, end) = take_chain none rest (some bridge.final_update_id) in
      take_events (length pre) (pre ++ bridge ∷ rest) last ≡ (bridge ∷ taken, end)
take_events-append pre bridge rest last =
    rw (get_elem?-append pre bridge rest, take_events) (rw (add-one, drop-append pre bridge rest))

pub reconcile-none :
    (id : ℕ) (s : Synchronizer)
    → bridge_index id 0 (discard_stale id s.buffer s.events_ignored).0 ≡ none
    → reconcile id s ≡ (
      record s {
        snapshot_last_update_id = id;
        buffer = (discard_stale id s.buffer s.events_ignored).0;
        events_ignored = (discard_stale id s.buffer s.events_ignored).1;
      },
      err no_bridging_event,
    )
unfolding reconcile
reconcile-none id s e = rw (e, reconcile)

pub reconcile-some :
    (id : ℕ) (s : Synchronizer) (k : ℕ)
    → bridge_index id 0 (discard_stale id s.buffer s.events_ignored).0 ≡ some k
    → let (buffer, ignored) = discard_stale id s.buffer s.events_ignored in
      let (events, last) = take_events k buffer s.last_applied_u in
      reconcile id s ≡ (
        record s {
          snapshot_last_update_id = id;
          buffer = [];
          events_ignored = ignored;
          last_applied_u = last;
          events_applied = add64 s.events_applied (length events);
          state = ready;
        },
        ok events,
      )
unfolding reconcile
reconcile-some id s k e = rw (e, reconcile)

-- The buffer after the discard, in full.
IsUnbridged-append :
    (id : ℕ) (xs ys : List DepthUpdate)
    → IsUnbridged id xs
    → IsUnbridged id ys
    → IsUnbridged id (xs ++ ys)
IsUnbridged-append id xs ys = All-append (λ e. bridges id e ≡ false) xs ys

split_buffer :
    (id k : ℕ) (s : Synchronizer)
    → bridge_index id 0 (discard_stale id s.buffer s.events_ignored).0 ≡ some k
    → let (events, last) =
        take_events k (discard_stale id s.buffer s.events_ignored).0 s.last_applied_u in
      IsReconciled id s.buffer events last
split_buffer id k s e =
    let buffer = (discard_stale id s.buffer s.events_ignored).0 in
    let (stale, cut, old) = discard_stale_lem id s.buffer s.events_ignored in
    let (pre, bridge, rest, whole, index, others, hit) = bridge_index-some id 0 buffer k e in
    let ((left, after, stops), follows, end) = take_chain-none bridge.final_update_id rest in
    let at : take_events k buffer s.last_applied_u ≡ (
      bridge ∷ (take_chain none rest (some bridge.final_update_id)).0,
      (take_chain none rest (some bridge.final_update_id)).1,
    ) =
      ap₂ (λ i b. take_events i b s.last_applied_u) (omega arith) whole
      ∙ take_events-append pre bridge rest s.last_applied_u in
    rw at (record {
      skipped = stale ++ pre;
      bridge = bridge;
      taken = (take_chain none rest (some bridge.final_update_id)).0;
      left = left;
      whole =
          cut
          ∙ ap (◌++◌ stale) (whole ∙ ap (λ r. pre ++ bridge ∷ r) after)
          ∙ sym (append_assoc stale pre _);
      unbridged = IsUnbridged-append id stale pre old others;
      bridged = hit;
      returned = refl;
      follows = follows;
      stops = stops;
      applied = end;
    })

no_bridge :
    (id : ℕ) (s : Synchronizer)
    → bridge_index id 0 (discard_stale id s.buffer s.events_ignored).0 ≡ none
    → IsUnbridged id s.buffer
      × ((reconcile id s).1 ≡ err no_bridging_event)
      × ((reconcile id s).0.state ≡ s.state)
      × ((reconcile id s).0.last_applied_u ≡ s.last_applied_u)
      × ((stale : List DepthUpdate) × (s.buffer ≡ stale ++ (reconcile id s).0.buffer))
no_bridge id s e =
    let (stale, cut, old) = discard_stale_lem id s.buffer s.events_ignored in
    let rest = bridge_index-none id 0 (discard_stale id s.buffer s.events_ignored).0 e in
    let same = reconcile-none id s e in
    (
      subst (IsUnbridged id) (sym cut) (IsUnbridged-append id stale _ old rest),
      ap (λ r. r.1) same,
      ap (λ r. r.0.state) same,
      ap (λ r. r.0.last_applied_u) same,
      (stale, cut ∙ ap (◌++◌ stale) (sym (ap (λ r. r.0.buffer) same))),
    )

-- Reconciliation with the snapshot id has two outcomes. It finds the first buffered event that
-- bridges the id and returns it with the events after it, up to the first that does not link up
-- with the one before (the one right after the bridge is not compared with it); it is ready, has an
-- empty buffer and remembers the `u` of the last event returned. Or no buffered event bridges the id: it fails with
-- that error, keeps its state and `last_applied_u`, and loses from the buffer at most a prefix.
pub reconcile_outcomes :
    (id : ℕ) (s : Synchronizer)
    → ((t : Synchronizer) × (events : List DepthUpdate) × (reconcile id s ≡ (t, ok events))
        × IsReconciled id s.buffer events t.last_applied_u
        × (t.state ≡ ready)
        × (t.buffer ≡ []))
      ⊎ (IsUnbridged id s.buffer
          × ((reconcile id s).1 ≡ err no_bridging_event)
          × ((reconcile id s).0.state ≡ s.state)
          × ((reconcile id s).0.last_applied_u ≡ s.last_applied_u)
          × ((stale : List DepthUpdate) × (s.buffer ≡ stale ++ (reconcile id s).0.buffer)))
reconcile_outcomes id s =
    elim (Option-cases (bridge_index id 0 (discard_stale id s.buffer s.events_ignored).0)) [
      | inl e ↦ inr (no_bridge id s e)
      | inr (k, e) ↦ inl (_, _, reconcile-some id s k e, split_buffer id k s e, refl, refl)
    ]

-- When the buffer is an event that bridges the snapshot and an event whose `pu` is not the `u` of
-- the first, reconciliation returns both, although they are not linked.
pub reconcile_accepts_gap :
    (id : ℕ) (s : Synchronizer) (bridge next : DepthUpdate)
    → s.buffer ≡ bridge ∷ next ∷ []
    → bridges id bridge ≡ true
    → next.previous_final_update_id ≢ bridge.final_update_id
    → ((reconcile id s).1 ≡ ok (bridge ∷ next ∷ [])) × ¬ Linked bridge.final_update_id (next ∷ [])
unfolding reconcile discard_stale bridges bridge_index take_chain breaks
reconcile_accepts_gap id s bridge next h hit gap = (ground arith, λ l. gap l.0)
