-- ===== src/Examples/Ranged.antt =====
-- A replay of a range of events.
use futures_orderbook.Prelude.{◌≡◌, ok, ◌>>=◌, List, [], ◌∷◌, some, false}
use futures_orderbook.Level.Whole.{whole}
use futures_orderbook.Storage.Memory.{filter}
use futures_orderbook.Replay.Reader.{ReplayEvent, snapshot, depth, trade, new}
use futures_orderbook.Replay.Engine.{ReplayConfig, begin, finish, run_replay}
use futures_orderbook.Replay.Ranged.{in_range, replay_each, run_replay-in_range}
use futures_orderbook.Examples.Data.{trade_of, quotes, ask_quotes, event}

abbrev config : ReplayConfig
config = record { seq_start = some 2; seq_end = some 4; analytics = false }

abbrev events : List ReplayEvent
events =
    trade 5 (trade_of 9)
    ∷ depth 3 (event 11 20 10 quotes ask_quotes)
    ∷ snapshot 2 10 1000 quotes ask_quotes
    ∷ trade 1 (trade_of 7)
    ∷ []

run_replay-in_range_example : run_replay whole config (new events) ≡ (
    replay_each config whole
      (filter (in_range config) (new events))
      (begin whole config (new events))
    >>= λ r. ok (finish whole config r))
run_replay-in_range_example = run_replay-in_range config whole events
