-- ===== src/Examples/Replays.antt =====
-- What a recorder wrote, read back, at concrete events and with the plain clock.
use futures_orderbook.Prelude.{ℕ, ◌≡◌, refl, List, [], ◌∷◌, arith}
use futures_orderbook.Level.Whole.{whole}
use futures_orderbook.Recording.Host.{IsClock}
use futures_orderbook.Recording.Recorder.{Shared, trade_row}
use futures_orderbook.Recording.Run.{start}
use futures_orderbook.Engine.Trades.{new_trade}
use futures_orderbook.Replay.Reader.{trade_row_to_event, reconstruct_depth_updates}
use futures_orderbook.Replay.Restored.{trade_row_to_event-trade_row}
use futures_orderbook.Replay.Regrouped.{
  Entry, all_rows, all_rebuilt, reconstruct_depth_updates-all_rows,
}
use futures_orderbook.Examples.Data.{trade_of, quotes, ask_quotes, bad_quotes, event}
use futures_orderbook.Examples.Recorders.{plain, config}

plain-IsClock : IsClock plain
plain-IsClock = record {
  built = λ secs nanos a b. ((secs, nanos), refl, refl, refl);
  millis = λ d. refl;
}

abbrev fresh : Shared ℕ (ℕ × ℕ)
unfolding start
fresh = (start plain whole 1 config).shared

trade_row_to_event-trade_row_example :
    trade_row_to_event plain (trade_row plain (new_trade (trade_of 7) 1_234_567_890_123) fresh)
    ≡ record (trade_of 7) { local_receive_time_ns = 1_234_567_890_123 }
trade_row_to_event-trade_row_example =
    trade_row_to_event-trade_row plain (trade_of 7) 1_234_567_890_123 fresh plain-IsClock
      (record { event_time = omega arith; trade_time = omega arith; local_time = omega arith })

abbrev entries : List (Entry plain whole)
entries =
    record {
      event = event 11 20 10 quotes bad_quotes;
      local_ns = 5;
      before = record fresh { seq = 3 };
    }
    ∷ record { event = event 21 30 20 [] []; local_ns = 6; before = record fresh { seq = 4 } }
    ∷ record {
      event = event 31 40 30 ask_quotes quotes;
      local_ns = 7;
      before = record fresh { seq = 6 };
    }
    ∷ []

reconstruct_depth_updates-all_rows_example :
    reconstruct_depth_updates plain whole (all_rows plain whole entries)
    ≡ all_rebuilt plain whole entries
reconstruct_depth_updates-all_rows_example =
    reconstruct_depth_updates-all_rows plain whole 0 entries plain-IsClock
      (omega arith, (omega arith, (omega arith, tt)))
      ((omega arith, omega arith), ((omega arith, omega arith), ((omega arith, omega arith), tt)))
