-- ===== src/Examples/Stored.antt =====
-- The storage at concrete events.
use futures_orderbook.Prelude.{ℕ, String, Bool, ◌≡◌, refl, true, ltb}
use futures_orderbook.Level.Whole.{whole}
use futures_orderbook.Analytics.Derived.{Detail}
use futures_orderbook.Storage.Sink.{Table}
use futures_orderbook.Storage.Within.{Within}
use futures_orderbook.Storage.Sent.{session_rows}
use futures_orderbook.Storage.Delivered.{stored_at_end, finish-stored, finish-Within}
use futures_orderbook.Examples.Recorders.{plain}
use futures_orderbook.Examples.Analysed.{config, events}

abbrev no_text : Detail → String
no_text d = ""

finish-stored_example :
    stored_at_end plain whole no_text 1 (λ n t. true) 2 config events
    ≡ session_rows plain whole no_text 1 config events
finish-stored_example =
    finish-stored plain whole no_text 1 (λ n t. true) 2 config events (λ n t. refl)

-- The inserts of the first flush fail.
abbrev later : ℕ → Table → Bool
later n t = ltb 0 n

finish-Within_example :
    Within
      (stored_at_end plain whole no_text 1 later 2 config events)
      (session_rows plain whole no_text 1 config events)
finish-Within_example = finish-Within plain whole no_text 1 later 2 config events
