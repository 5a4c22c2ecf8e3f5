-- ===== src/Storage/Sent.antt =====
-- What the driver sends to the sink over a session (src/main.rs, src/storage/analytics.rs).
use futures_orderbook.Prelude.{
  String, ◌≡◌, refl, sym, ◌∙◌, ap, List, [], ◌∷◌, ◌++◌, map, false, Option, none, some,
  if◌then◌else◌, if-elim, Bool-cases, inl, inr,
}
use mathlib.Core.List.{append_assoc, append-nil, map-append}
use futures_orderbook.Recording.Host.{Host}
use futures_orderbook.Level.Floats.{F64}
use futures_orderbook.Events.{MarketEvent}
use futures_orderbook.Analytics.Derived.{AnalyticsEvent, Detail}
use futures_orderbook.Analytics.Snapshot.{MarketMicrostructureSnapshot}
use futures_orderbook.Analytics.Config.{AnalyticsConfig}
use futures_orderbook.Analytics.Engine.{AnalyticsEngine, EngineOutput, new, force_snapshot}
use futures_orderbook.Analytics.Engine.Process.{process_event}
use futures_orderbook.Analytics.Engine.History.{run}
use futures_orderbook.Storage.Analytics.{
  LiquidityEventRow, AnalyticsBatch, is_empty, cleared, is_skipped, from_snapshot, from_event,
  liquidity_row_from_event, push_some, add_event, add_events, analytics_batch_from_output,
}
use futures_orderbook.Storage.Sink.{Sink, started, submit, extend}
use futures_orderbook.Storage.Lane.{on_event, on_events, delta_rows, row_of_some}
use futures_orderbook.Storage.Joined.{extend-cleared, extend_assoc, joined, submit-joined}

-- The events that the driver does not skip.
abbrev pub recorded : List AnalyticsEvent → List AnalyticsEvent
recorded [] = []
recorded (e ∷ es) = let rest = recorded es in if is_skipped e.kind then rest else e ∷ rest

recorded-append : (es fs : List AnalyticsEvent) → recorded (es ++ fs) ≡ recorded es ++ recorded fs
recorded-append [] fs = refl
recorded-append (e ∷ es) fs = elim (Bool-cases (is_skipped e.kind)) [
  | inl h ↦ rw h (recorded-append es fs)
  | inr h ↦ rw h (ap (◌∷◌ e) (recorded-append es fs))
]

module _ (fl : F64) where
  -- The events of the engine's outputs.
  unfoldable pub happened :
      List (MarketEvent fl.Float) → AnalyticsEngine fl.Float → List AnalyticsEvent
  happened [] e = []
  happened (ev ∷ events) e =
      let (next, out) = process_event fl ev e in out.events ++ happened events next

module _ (host : Host) (fl : F64) (detail_text : Detail → String) (session_id : host.Uuid) where
  open host use {Uuid, DateTime}
  open fl use {Float}

  abbrev pub liquidity_rows : List AnalyticsEvent → List (LiquidityEventRow Uuid DateTime)
  liquidity_rows [] = []
  liquidity_rows (e ∷ es) =
      push_some (liquidity_row_from_event host Float detail_text session_id e) []
      ++ liquidity_rows es

  -- The rows of snapshots and events.
  abbrev pub derived :
      List (MarketMicrostructureSnapshot Float)
      → List AnalyticsEvent
      → AnalyticsBatch Uuid DateTime Float
  derived ss es = record {
    snapshots = map (from_snapshot host Float detail_text session_id) ss;
    events = map (from_event host Float detail_text session_id) (recorded es);
    delta_by_price = [];
    liquidity_events = liquidity_rows (recorded es);
  }

  liquidity_rows-append :
      (es fs : List AnalyticsEvent)
      → liquidity_rows (es ++ fs) ≡ liquidity_rows es ++ liquidity_rows fs
  liquidity_rows-append [] fs = refl
  liquidity_rows-append (e ∷ es) fs =
      let row = push_some (liquidity_row_from_event host Float detail_text session_id e) [] in
      ap (λ l. row ++ l) (liquidity_rows-append es fs)
      ∙ sym (append_assoc row (liquidity_rows es) (liquidity_rows fs))

  derived-append :
      (ss ts : List (MarketMicrostructureSnapshot Float)) (es fs : List AnalyticsEvent)
      → derived (ss ++ ts) (es ++ fs) ≡ extend (derived ss es) (derived ts fs)
  derived-append ss ts es fs =
      rw
        (
          recorded-append es fs,
          map-append (from_snapshot host Float detail_text session_id) ss ts,
          map-append (from_event host Float detail_text session_id) (recorded es) (recorded fs),
          liquidity_rows-append (recorded es) (recorded fs),
        )
        refl

  push_some-append :
      {A : Type 0} (o : Option A) (xs ys : List A)
      → push_some o xs ++ ys ≡ xs ++ (push_some o [] ++ ys)
  push_some-append none xs ys = refl
  push_some-append (some x) xs ys = append_assoc xs (x ∷ []) ys

  add_events-rows :
      (es : List AnalyticsEvent) (b : AnalyticsBatch Uuid DateTime Float)
      → add_events host Float detail_text session_id es b ≡ extend b (derived [] es)
  unfolding add_events
  add_events-rows [] b = sym (extend-cleared b)
  add_events-rows (e ∷ es) b = elim (Bool-cases (is_skipped e.kind)) [
    | inl h ↦ rw h (add_events-rows es b)
    | inr h ↦
        let row = from_event host Float detail_text session_id e in
        let liquidity = liquidity_row_from_event host Float detail_text session_id e in
        let later = derived [] es in
        rw (h, add_events-rows es (add_event host Float detail_text session_id false e b))
          (rw
            (
              append_assoc b.events (row ∷ []) later.events,
              push_some-append liquidity b.liquidity_events later.liquidity_events,
            )
            refl)
  ]

  batch-rows :
      (out : EngineOutput Float)
      → analytics_batch_from_output host Float detail_text session_id out
        ≡ derived out.snapshots out.events
  unfolding analytics_batch_from_output
  batch-rows out =
      add_events-rows out.events (derived out.snapshots [])
      ∙ rw (append-nil (derived out.snapshots []).snapshots) refl

  on_events-engine :
      (events : List (MarketEvent Float)) (e : AnalyticsEngine Float) (s : Sink Uuid DateTime Float)
      → (on_events host fl detail_text session_id events (e, s)).0 ≡ (run fl events e).0
  unfolding on_events on_event run
  on_events-engine [] e s = refl
  on_events-engine (ev ∷ events) e s =
      let (next, out) = process_event fl ev e in
      on_events-engine events next
        (submit (analytics_batch_from_output host Float detail_text session_id out) s)

  submit-stored :
      (b : AnalyticsBatch Uuid DateTime Float) (s : Sink Uuid DateTime Float)
      → (submit b s).stored ≡ s.stored
  unfolding submit
  submit-stored b s = if-elim (λ t. t.stored ≡ s.stored) (is_empty b) s _ (λ _. refl) (λ _. refl)

  on_events-stored :
      (events : List (MarketEvent Float)) (e : AnalyticsEngine Float) (s : Sink Uuid DateTime Float)
      → (on_events host fl detail_text session_id events (e, s)).1.stored ≡ s.stored
  unfolding on_events on_event
  on_events-stored [] e s = refl
  on_events-stored (ev ∷ events) e s =
      let (next, out) = process_event fl ev e in
      let batch = analytics_batch_from_output host Float detail_text session_id out in
      on_events-stored events next (submit batch s) ∙ submit-stored batch s

  on_events-joined :
      (events : List (MarketEvent Float)) (e : AnalyticsEngine Float) (s : Sink Uuid DateTime Float)
      → joined (on_events host fl detail_text session_id events (e, s)).1.channel
        ≡ extend (joined s.channel) (derived (run fl events e).1 (happened fl events e))
  unfolding on_events on_event run happened
  on_events-joined [] e s = sym (extend-cleared (joined s.channel))
  on_events-joined (ev ∷ events) e s =
      let (next, out) = process_event fl ev e in
      let batch = analytics_batch_from_output host Float detail_text session_id out in
      let later = derived (run fl events next).1 (happened fl events next) in
      on_events-joined events next (submit batch s)
      ∙ ap (λ b. extend b later) (submit-joined batch s)
      ∙ ap (λ b. extend (extend (joined s.channel) b) later) (batch-rows out)
      ∙ extend_assoc (joined s.channel) (derived out.snapshots out.events) later
      ∙ ap (extend (joined s.channel)) (
          sym (
            derived-append out.snapshots (run fl events next).1 out.events
              (happened fl events next)))

  abbrev pub snapshot_rows :
      Option (MarketMicrostructureSnapshot Float) → List (MarketMicrostructureSnapshot Float)
  snapshot_rows none = []
  snapshot_rows (some snap) = snap ∷ []

  -- The rows that the driver hands over at its end.
  abbrev pub closing :
      AnalyticsEngine Float × Option (MarketMicrostructureSnapshot Float)
      → AnalyticsBatch Uuid DateTime Float
  closing (last, final_snapshot) = record cleared {
    snapshots =
        map (from_snapshot host Float detail_text session_id) (snapshot_rows final_snapshot);
    delta_by_price = delta_rows host fl detail_text session_id last;
  }

  submitted :
      (b : AnalyticsBatch Uuid DateTime Float) (s : Sink Uuid DateTime Float)
      → s.stored ≡ cleared
      → extend (submit b s).stored (joined (submit b s).channel) ≡ extend (joined s.channel) b
  submitted b s h =
      ap (λ a. extend a (joined (submit b s).channel)) (submit-stored b s ∙ h) ∙ submit-joined b s

  row_of_some-map :
      (o : Option (MarketMicrostructureSnapshot Float))
      → row_of_some host fl detail_text session_id o
        ≡ map (from_snapshot host Float detail_text session_id) (snapshot_rows o)
  row_of_some-map none = refl
  row_of_some-map (some snap) = refl

  -- What the driver has sent by its end: the snapshots of the engine's run over the events and the
  -- forced one after them, if there is one; the rows of all events of the run but the trade deltas and
  -- clusters; the rows of their liquidity changes; and the profile of the last engine.
  abbrev pub session_rows :
      AnalyticsConfig Float → List (MarketEvent Float) → AnalyticsBatch Uuid DateTime Float
  session_rows cfg events =
      let (end, ss) = run fl events (new fl cfg) in
      extend (derived ss (happened fl events (new fl cfg))) (closing (force_snapshot fl end))

  -- The sink with all that the driver sends, before its worker runs.
  abbrev pub full_sink : AnalyticsConfig Float → List (MarketEvent Float) → Sink Uuid DateTime Float
  full_sink cfg events =
      let lane = on_events host fl detail_text session_id events (new fl cfg, started) in
      let (last, final_snapshot) = force_snapshot fl lane.0 in
      submit
        (record cleared {
          snapshots = row_of_some host fl detail_text session_id final_snapshot;
          delta_by_price = delta_rows host fl detail_text session_id last;
        })
        lane.1

  pub full_sink-joined :
      (cfg : AnalyticsConfig Float) (events : List (MarketEvent Float))
      → let sink = full_sink cfg events in
        extend sink.stored (joined sink.channel) ≡ session_rows cfg events
  full_sink-joined cfg events =
      let e = new fl cfg in
      let lane = on_events host fl detail_text session_id events (e, started) in
      let sent = derived (run fl events e).1 (happened fl events e) in
      let (last, final_snapshot) = force_snapshot fl lane.0 in
      let batch = record cleared {
        snapshots = row_of_some host fl detail_text session_id final_snapshot;
        delta_by_price = delta_rows host fl detail_text session_id last;
      } in
      submitted batch lane.1 (on_events-stored events e started)
      ∙ ap (λ c. extend c batch) (on_events-joined events e started)
      ∙ ap
          (λ rows. extend sent (record cleared {
            snapshots = rows;
            delta_by_price = delta_rows host fl detail_text session_id last;
          }))
          (row_of_some-map final_snapshot)
      ∙ ap (λ l. extend sent (closing (force_snapshot fl l))) (on_events-engine events e started)
