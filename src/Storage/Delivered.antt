-- ===== src/Storage/Delivered.antt =====
-- What the storage holds when the driver has ended (src/main.rs, src/storage/analytics.rs).
use futures_orderbook.Prelude.{ℕ, String, ◌≡◌, ◌∙◌, subst, List, Bool, true}
use futures_orderbook.Recording.Host.{Host}
use futures_orderbook.Level.Floats.{F64}
use futures_orderbook.Events.{MarketEvent}
use futures_orderbook.Analytics.Derived.{Detail}
use futures_orderbook.Analytics.Config.{AnalyticsConfig}
use futures_orderbook.Analytics.Engine.{new}
use futures_orderbook.Storage.Analytics.{AnalyticsBatch}
use futures_orderbook.Storage.Sink.{Table, started}
use futures_orderbook.Storage.Lane.{on_events, finish}
use futures_orderbook.Storage.Within.{Within, run_sink-Within}
use futures_orderbook.Storage.Joined.{run_sink-stored}
use futures_orderbook.Storage.Sent.{session_rows, full_sink, full_sink-joined}

module _ (host : Host) (fl : F64) (detail_text : Detail → String) (session_id : host.Uuid) where
  open host use {Uuid, DateTime}
  open fl use {Float}

  abbrev pub stored_at_end :
      (accepts : ℕ → Table → Bool)
      → (channel_capacity : ℕ) → AnalyticsConfig Float
      → List (MarketEvent Float)
      → AnalyticsBatch Uuid DateTime Float
  stored_at_end accepts channel_capacity cfg events =
      (finish host fl detail_text session_id accepts channel_capacity
        (on_events host fl detail_text session_id events (new fl cfg, started))).1.stored

  -- When every insert is accepted, then at the end of a session the storage holds the rows of the
  -- session, each table in its order and each row once, whatever the capacity of the channel: the
  -- snapshots of the engine's run and the forced one, the events but trade deltas and clusters, their
  -- liquidity changes, and the profile of the last engine.
  pub finish-stored :
      (accepts : ℕ → Table → Bool) (channel_capacity : ℕ) (cfg : AnalyticsConfig Float)
      (events : List (MarketEvent Float))
      → ((n : ℕ) (t : Table) → accepts n t ≡ true)
      → stored_at_end accepts channel_capacity cfg events
        ≡ session_rows host fl detail_text session_id cfg events
  unfolding finish
  finish-stored accepts channel_capacity cfg events always =
      run_sink-stored accepts always channel_capacity
        (full_sink host fl detail_text session_id cfg events)
      ∙ full_sink-joined host fl detail_text session_id cfg events

  -- Whichever inserts fail, each table of the storage at the end of a session is a sublist of the rows
  -- of the session: no row is made up, doubled or out of order.
  pub finish-Within :
      (accepts : ℕ → Table → Bool) (channel_capacity : ℕ) (cfg : AnalyticsConfig Float)
      (events : List (MarketEvent Float))
      → Within
          (stored_at_end accepts channel_capacity cfg events)
          (session_rows host fl detail_text session_id cfg events)
  unfolding finish
  finish-Within accepts channel_capacity cfg events =
      subst (λ b. Within (stored_at_end accepts channel_capacity cfg events) b)
        (full_sink-joined host fl detail_text session_id cfg events)
        (run_sink-Within accepts channel_capacity
          (full_sink host fl detail_text session_id cfg events))
