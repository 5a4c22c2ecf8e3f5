-- ===== src/Replay/Restored.antt =====
-- What the recorder writes for a trade, or for the levels of a depth event, is read back.
use text.Mathlib.Text.{◌==◌ as str_eq}
use futures_orderbook.Prelude.{ℕ, ◌*◌, ◌/◌, ◌%◌, ◌≤◌, ◌≡◌, refl, ap, arith, if◌then◌else◌}
use futures_orderbook.Trades.Trade.{AggressorSide, buy, sell, TradeEvent, label}
use futures_orderbook.Recording.Host.{
  Host, IsClock, max_secs, ms_to_datetime, ns_to_datetime, datetime_to_ms, datetime_to_ns,
}
use futures_orderbook.Recording.Recorder.{Shared, trade_row}
use futures_orderbook.Engine.Trades.{new_trade}
use futures_orderbook.Replay.Reader.{trade_row_to_event}

module _ (host : Host) (clock : IsClock host) where
  pub datetime_to_ms-ms_to_datetime :
      (ms : ℕ) → ms ≤ max_secs * 1000 → datetime_to_ms host (ms_to_datetime host ms) ≡ ms
  unfolding datetime_to_ms ms_to_datetime
  datetime_to_ms-ms_to_datetime ms h =
      let (d, built, secs, nanos) =
        clock.built (ms / 1000) (ms % 1000 * 1_000_000) (omega (arith, h)) (omega arith) in
      let millis = clock.millis d in rw built (omega (arith, secs, nanos, millis))

  pub datetime_to_ns-ns_to_datetime :
      (ns : ℕ) → ns ≤ max_secs * 1_000_000_000 → datetime_to_ns host (ns_to_datetime host ns) ≡ ns
  unfolding datetime_to_ns ns_to_datetime
  datetime_to_ns-ns_to_datetime ns h =
      let (d, built, secs, nanos) =
        clock.built (ns / 1_000_000_000) (ns % 1_000_000_000) (omega (arith, h)) (omega arith) in
      rw built (omega (arith, secs, nanos))

side_read : (side : AggressorSide) → (if str_eq (label side) "BUY" then buy else sell) ≡ side
unfolding label
side_read buy = refl
side_read sell = refl

-- The times of a trade, and of its arrival, are dates that the library can represent.
pub record IsDated (event : TradeEvent) (local_ns : ℕ) : Type 0 where
  pub event_time : event.event_time ≤ max_secs * 1000
  pub trade_time : event.trade_time ≤ max_secs * 1000
  pub local_time : local_ns ≤ max_secs * 1_000_000_000

-- For any clock as documented, any trade and arrival time in the range of dates, and any state of
-- the recorder: the row that the recorder builds from the trade is read back by the replay as the
-- trade, with the arrival time that was recorded.
pub trade_row_to_event-trade_row :
    (host : Host) (event : TradeEvent) (local_ns : ℕ) (s : Shared host.Uuid host.DateTime)
    → IsClock host
    → IsDated event local_ns
    → trade_row_to_event host (trade_row host (new_trade event local_ns) s)
      ≡ record event { local_receive_time_ns = local_ns }
unfolding trade_row_to_event
trade_row_to_event-trade_row host event local_ns s clock dated =
    let a = datetime_to_ms-ms_to_datetime host clock event.event_time dated.event_time in
    let b = datetime_to_ms-ms_to_datetime host clock event.trade_time dated.trade_time in
    let c = datetime_to_ns-ns_to_datetime host clock local_ns dated.local_time in
    let d = side_read event.aggressor in rebuilt _ _ _ _ _ _ _ a b c d
  where
    rebuilt :
        (e e2 t t2 n n2 : ℕ) (side : AggressorSide)
        → e ≡ e2
        → t ≡ t2
        → n ≡ n2
        → side ≡ event.aggressor
        → ◌≡◌ {A = TradeEvent}
            (record event {
              event_time = e;
              trade_time = t;
              local_receive_time_ns = n;
              aggressor = side;
            })
            (record event { event_time = e2; trade_time = t2; local_receive_time_ns = n2 })
    rebuilt e e2 t t2 n n2 side a b c d =
        rw (a, b, c)
          (ap
            (λ (x : AggressorSide). record event {
              event_time = e2;
              trade_time = t2;
              local_receive_time_ns = n2;
              aggressor = x;
            })
            d)
