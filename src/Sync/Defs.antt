-- ===== src/Sync/Defs.antt =====
-- `struct Synchronizer` of src/orderbook/synchronizer.rs and its methods. Counters are 64-bit words
-- that wrap; the buffer's head is the front of the deque.
use futures_orderbook.Prelude.{
  ℕ, zero, suc, ◌+◌, List, [], ◌∷◌, ◌++◌, Bool, true, false, not, ◌&&◌, Option, none, some, ltb,
  leb, ◌==◌, if◌then◌else◌, length, drop, Result, ok, err,
}
use futures_orderbook.Prelude.Word.{add64}
use futures_orderbook.Binance.{DepthUpdate}
use futures_orderbook.Sync.State.{
  SyncState, disconnected, connecting, buffering, snapshot_loading, synchronizing, ready,
  reconnecting, stopping,
}

pub data ProcessResult : Type 0 where
  apply buffered stale pu_mismatch ignored : ProcessResult

pub data SyncError : Type 0 where
  no_bridging_event : SyncError
  sequence_gap : SyncError
  pu_mismatch : ℕ → ℕ → SyncError

pub record Synchronizer : Type 0 where
  pub state : SyncState
  pub buffer : List DepthUpdate
  pub snapshot_last_update_id : ℕ
  pub last_applied_u : Option ℕ
  pub events_received : ℕ
  pub events_applied : ℕ
  pub events_ignored : ℕ
  pub sequence_errors : ℕ
  pub resync_count : ℕ
  pub reconnect_count : ℕ

unfoldable pub new : Synchronizer
new = record {
  state = disconnected;
  buffer = [];
  snapshot_last_update_id = 0;
  last_applied_u = none;
  events_received = 0;
  events_applied = 0;
  events_ignored = 0;
  sequence_errors = 0;
  resync_count = 0;
  reconnect_count = 0;
}

unfoldable pub on_connecting : Synchronizer → Synchronizer
on_connecting s = record s { state = connecting }

unfoldable pub on_connected : Synchronizer → Synchronizer
on_connected s = record s {
  state = buffering;
  buffer = [];
  last_applied_u = none;
  events_received = 0;
  events_applied = 0;
  events_ignored = 0;
  sequence_errors = 0;
}

unfoldable pub on_reconnecting : Synchronizer → Synchronizer
on_reconnecting s = record s { state = reconnecting; reconnect_count = add64 s.reconnect_count 1 }

unfoldable pub on_snapshot_loading : Synchronizer → Synchronizer
on_snapshot_loading s = record s { state = snapshot_loading }

-- `self.state == SyncState::Buffering`
abbrev pub is_buffering : SyncState → Bool
is_buffering buffering = true
is_buffering _ = false

unfoldable pub buffer_event : DepthUpdate → Synchronizer → Synchronizer
buffer_event event s =
    if is_buffering s.state
    then record s { events_received = add64 s.events_received 1; buffer = s.buffer ++ event ∷ [] }
    else s

-- The `Ready` arm of `process_live_event`, by `last_applied_u`.
abbrev pub live_ready : DepthUpdate → Option ℕ → Synchronizer → Synchronizer × ProcessResult
live_ready event none s = (
  record s {
    last_applied_u = some event.final_update_id;
    events_applied = add64 s.events_applied 1;
  },
  apply,
)
live_ready event (some prev_u) s =
    if not (event.previous_final_update_id == prev_u)
    then (record s { sequence_errors = add64 s.sequence_errors 1 }, ProcessResult.pu_mismatch)
    else if leb event.final_update_id prev_u
    then (record s { events_ignored = add64 s.events_ignored 1 }, stale)
    else (
      record s {
        last_applied_u = some event.final_update_id;
        events_applied = add64 s.events_applied 1;
      },
      apply,
    )

abbrev pub live_by_state : SyncState → DepthUpdate → Synchronizer → Synchronizer × ProcessResult
live_by_state ready event s = live_ready event s.last_applied_u s
live_by_state buffering event s = (buffer_event event s, buffered)
live_by_state synchronizing event s = (s, buffered)
live_by_state _ event s = (record s { events_ignored = add64 s.events_ignored 1 }, ignored)

unfoldable pub process_live_event : DepthUpdate → Synchronizer → Synchronizer × ProcessResult
process_live_event event s =
    live_by_state s.state event (record s { events_received = add64 s.events_received 1 })

-- Step 1 of `reconcile`: what is left of the buffer, and the counter of ignored events.
unfoldable pub discard_stale : ℕ → List DepthUpdate → ℕ → List DepthUpdate × ℕ
discard_stale id [] ignored_so_far = ([], ignored_so_far)
discard_stale id (front ∷ rest) ignored_so_far =
    let popped = discard_stale id rest (add64 ignored_so_far 1) in
    if ltb front.final_update_id id then popped else (front ∷ rest, ignored_so_far)

-- The condition of step 2.
unfoldable pub bridges : ℕ → DepthUpdate → Bool
bridges id event = leb event.first_update_id id && leb id event.final_update_id

-- Step 2: the index of the first bridging event, where `i` is that of the head.
unfoldable pub bridge_index : ℕ → ℕ → List DepthUpdate → Option ℕ
bridge_index id i [] = none
bridge_index id i (event ∷ rest) = if bridges id event then some i else bridge_index id (i + 1) rest

unfoldable pub breaks : Option ℕ → DepthUpdate → Bool
breaks none event = false
breaks (some prev_u) event = not (event.previous_final_update_id == prev_u)

-- Step 3's loop after the bridge: the events that it pushes, and `last_applied_u`.
unfoldable pub take_chain : Option ℕ → List DepthUpdate → Option ℕ → List DepthUpdate × Option ℕ
take_chain expected_pu [] last = ([], last)
take_chain expected_pu (event ∷ rest) last =
    let (events, end) = take_chain (some event.final_update_id) rest (some event.final_update_id) in
    if breaks expected_pu event then ([], last) else (event ∷ events, end)

abbrev pub get_elem? {ℓ} : {A : Type ℓ} → List A → ℕ → Option A
get_elem? [] i = none
get_elem? (x ∷ xs) zero = some x
get_elem? (x ∷ xs) (suc i) = get_elem? xs i

-- `if let Some(first_event) = self.buffer.get(bridge_idx)`. `expected_pu` is `None` after it.
abbrev pub take_events : ℕ → List DepthUpdate → Option ℕ → List DepthUpdate × Option ℕ
take_events bridge_idx buffer last = elim (get_elem? buffer bridge_idx) [
  | none ↦ take_chain none (drop (bridge_idx + 1) buffer) last
  | some first_event ↦
      let (events, end) =
        take_chain none (drop (bridge_idx + 1) buffer) (some first_event.final_update_id) in
      (first_event ∷ events, end)
]

unfoldable pub reconcile : ℕ → Synchronizer → Synchronizer × Result (List DepthUpdate) SyncError
reconcile id s =
    let (buffer, events_ignored) = discard_stale id s.buffer s.events_ignored in
    let kept = record s {
      snapshot_last_update_id = id;
      buffer = buffer;
      events_ignored = events_ignored;
    } in
    elim (bridge_index id 0 buffer) [
      | none ↦ (kept, err no_bridging_event)
      | some bridge_idx ↦
          let (events, last) = take_events bridge_idx buffer s.last_applied_u in
          (
            record kept {
              last_applied_u = last;
              events_applied = add64 s.events_applied (length events);
              buffer = [];
              state = ready;
            },
            ok events,
          )
    ]

unfoldable pub trigger_resync : Synchronizer → Synchronizer
trigger_resync s = record s {
  resync_count = add64 s.resync_count 1;
  state = buffering;
  buffer = [];
  last_applied_u = none;
}

unfoldable pub shutdown : Synchronizer → Synchronizer
shutdown s = record s { state = stopping }

unfoldable pub is_ready : Synchronizer → Bool
is_ready s = elim s.state [ ready ↦ true | _ ↦ false ]
