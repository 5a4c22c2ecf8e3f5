-- ===== src/Examples/Audited.antt =====
-- A storage in memory; and the audit of a session of two trades and of two depth events.
use futures_orderbook.Prelude.{
  Bool, ◌==◌, ==_iff, ℕ, String, List, [], ◌∷◌, true, none, ok, ◌↔◌, ◌≡◌,
}
use futures_orderbook.Level.Whole.{whole}
use futures_orderbook.Recording.Rows.{TradeRow, LevelChangeRow}
use futures_orderbook.Recording.Recorder.{Shared, trade_row}
use futures_orderbook.Recording.Run.{start}
use futures_orderbook.Engine.Trades.{new_trade}
use futures_orderbook.Verify.{VerifyReport, Answers, verify_session}
use futures_orderbook.Verify.Clean.{IsClean, verify_session-verified}
use futures_orderbook.Storage.Memory.{new}
use futures_orderbook.Storage.Memory.Calls.{Call, call_all, level_changes, status}
use futures_orderbook.Storage.Memory.Reads.{ReadsBack, call_all-new-ReadsBack}
use futures_orderbook.Examples.Data.{trade_of}
use futures_orderbook.Examples.Recorders.{plain, config}

abbrev fresh : Shared ℕ (ℕ × ℕ)
unfolding start
fresh = (start plain whole 1 config).shared

abbrev trades : List (TradeRow ℕ (ℕ × ℕ))
trades =
    trade_row plain (new_trade (trade_of 7) 5) fresh
    ∷ trade_row plain (new_trade (trade_of 9) 6) fresh
    ∷ []

abbrev level : (seq final price : ℕ) (side : String) → LevelChangeRow ℕ (ℕ × ℕ)
level seq final price side = record {
  session_id = 1;
  seq = seq;
  symbol = "BTCUSDT";
  exchange_event_time = (1, 0);
  exchange_transaction_time = (1, 0);
  local_receive_time = (1, 0);
  first_update_id = final;
  final_update_id = final;
  previous_final_update_id = 0;
  side = side;
  price = price;
  quantity = 1;
}

abbrev levels : List (LevelChangeRow ℕ (ℕ × ℕ))
levels = level 1 20 5 "BID" ∷ level 1 20 5 "ASK" ∷ level 2 30 5 "BID" ∷ []

verify_session-verified_example :
    let storage : Answers ℕ (ℕ × ℕ) = record {
      get_session = ok none;
      read_raw_events = ok [];
      read_trades = ok trades;
      read_level_changes = ok levels;
      count_depth_events = ok 2;
      read_snapshots = ok [];
    } in
    (r : VerifyReport ℕ (ℕ × ℕ)) × (verify_session (λ text. true) storage ≡ ok r)
    × ((r.verified ≡ true) ↔ IsClean (λ text. true) none [] trades levels)
verify_session-verified_example = verify_session-verified (λ text. true) none [] trades levels 2 []

abbrev same : ℕ → ℕ → Bool
same a b = a == b

-- Two sessions, and a row that comes late.
abbrev calls : List (Call ℕ (ℕ × ℕ) ℕ)
calls =
    level_changes (level 3 40 5 "BID" ∷ record (level 1 20 5 "BID") { session_id = 2 } ∷ [])
    ∷ Call.trades trades
    ∷ status 1 "COMPLETED" none
    ∷ level_changes levels
    ∷ []

call_all-new-ReadsBack_example : ReadsBack plain ℕ same 1 calls (call_all plain ℕ same calls new)
call_all-new-ReadsBack_example = call_all-new-ReadsBack plain ℕ same ==_iff 1 calls
