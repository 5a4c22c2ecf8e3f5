-- ===== src/Replay/Reader.antt =====
-- src/replay/reader.rs: the events of a session, rebuilt from the rows and put in the order of their
-- sequence numbers. The rows that the storage returns are arguments; `none` is an error of JSON.
use text.Mathlib.Text.{◌==◌ as str_eq}
use futures_orderbook.Prelude.{
  ℕ, String, List, [], ◌∷◌, ◌++◌, map, Bool, Option, none, some, ◌==◌, ltb, if◌then◌else◌,
}
use futures_orderbook.Level.Floats.{F64}
use futures_orderbook.Level.{ticks_to_price_str, ticks_to_quantity_str}
use futures_orderbook.Binance.{DepthUpdate}
use futures_orderbook.Book.Defs.{Quote}
use futures_orderbook.Trades.Trade.{buy, sell, TradeEvent}
use futures_orderbook.Recording.Host.{Host, datetime_to_ms, datetime_to_ns}
use futures_orderbook.Recording.Rows.{TradeRow, LevelChangeRow, SnapshotRow}

pub data ReplayEvent : Type 0 where
  snapshot : (seq update_id time_ms : ℕ) → (bids asks : List Quote) → ReplayEvent
  depth : ℕ → DepthUpdate → ReplayEvent
  trade : ℕ → TradeEvent → ReplayEvent

unfoldable pub seq : ReplayEvent → ℕ
seq (snapshot n id t bids asks) = n
seq (depth n update) = n
seq (trade n event) = n

unfoldable pub time_ms : ReplayEvent → ℕ
time_ms (snapshot n id t bids asks) = t
time_ms (depth n update) = update.event_time
time_ms (trade n event) = event.trade_time

-- `sort_by_key`, which is stable.
unfoldable pub insert_sorted : ReplayEvent → List ReplayEvent → List ReplayEvent
insert_sorted e [] = e ∷ []
insert_sorted e (x ∷ xs) =
    let rest = insert_sorted e xs in if ltb (seq x) (seq e) then x ∷ rest else e ∷ x ∷ xs

-- `SessionData::new`
unfoldable pub new : List ReplayEvent → List ReplayEvent
new [] = []
new (e ∷ es) = insert_sorted e (new es)

module _ (host : Host) where
  open host use {Uuid, DateTime}

  unfoldable pub trade_row_to_event : TradeRow Uuid DateTime → TradeEvent
  trade_row_to_event r = record {
    symbol = r.symbol;
    trade_id = r.trade_id;
    price_ticks = r.price;
    quantity_ticks = r.quantity;
    event_time = datetime_to_ms host r.exchange_event_time;
    trade_time = datetime_to_ms host r.trade_time;
    local_receive_time_ns = datetime_to_ns host r.local_receive_time;
    aggressor = if str_eq r.aggressor_side "BUY" then buy else sell;
    order_type = r.order_type;
  }

module _ (host : Host) (fl : F64) where
  open host use {Uuid, DateTime, from_json}

  abbrev pub quote_of : ℕ × ℕ → Quote
  quote_of (p, q) = (ticks_to_price_str fl p, ticks_to_quantity_str fl q)

  unfoldable pub decode_levels : String → Option (List Quote)
  decode_levels json = elim (from_json json) [
    | none ↦ none
    | some pairs ↦ some (map quote_of pairs)
  ]

  -- The update of the rows with one sequence number, from the first of them.
  abbrev pub update_of : LevelChangeRow Uuid DateTime → (bids asks : List Quote) → DepthUpdate
  update_of r bids asks = record {
    event_type = "depthUpdate";
    event_time = datetime_to_ms host r.exchange_event_time;
    transaction_time = datetime_to_ms host r.exchange_transaction_time;
    symbol = r.symbol;
    first_update_id = r.first_update_id;
    final_update_id = r.final_update_id;
    previous_final_update_id = r.previous_final_update_id;
    bids = bids;
    asks = asks;
  }

  abbrev pub is_bid : LevelChangeRow Uuid DateTime → Bool
  is_bid r = str_eq r.side "BID"

  abbrev pub bids_with : LevelChangeRow Uuid DateTime → List Quote → List Quote
  bids_with r bids = if is_bid r then bids ++ quote_of (r.price, r.quantity) ∷ [] else bids

  abbrev pub asks_with : LevelChangeRow Uuid DateTime → List Quote → List Quote
  asks_with r asks = if is_bid r then asks else asks ++ quote_of (r.price, r.quantity) ∷ []

  -- The two loops: the inner one has read the rows of `first` up to here.
  unfoldable pub regroup :
      LevelChangeRow Uuid DateTime
      → (bids asks : List Quote) → List (LevelChangeRow Uuid DateTime)
      → List (ℕ × DepthUpdate)
  regroup first bids asks [] = (first.seq, update_of first bids asks) ∷ []
  regroup first bids asks (r ∷ rows) =
      let same = regroup first (bids_with r bids) (asks_with r asks) rows in
      let next = regroup r (bids_with r []) (asks_with r []) rows in
      if r.seq == first.seq then same else (first.seq, update_of first bids asks) ∷ next

  unfoldable pub reconstruct_depth_updates :
      List (LevelChangeRow Uuid DateTime) → List (ℕ × DepthUpdate)
  reconstruct_depth_updates [] = []
  reconstruct_depth_updates (r ∷ rows) = regroup r (bids_with r []) (asks_with r []) rows

  -- The loop over the snapshots, with the `?` on the levels.
  abbrev snapshot_event :
      SnapshotRow Uuid DateTime → Option (List Quote) → Option (List Quote) → Option ReplayEvent
  snapshot_event s (some bids) (some asks) =
      some (snapshot s.seq s.snapshot_update_id (datetime_to_ms host s.timestamp) bids asks)
  snapshot_event s (some bids) none = none
  snapshot_event s none asks = none

  abbrev cons_some : Option ReplayEvent → Option (List ReplayEvent) → Option (List ReplayEvent)
  cons_some (some e) (some es) = some (e ∷ es)
  cons_some (some e) none = none
  cons_some none es = none

  abbrev snapshot_events : List (SnapshotRow Uuid DateTime) → Option (List ReplayEvent)
  snapshot_events [] = some []
  snapshot_events (s ∷ rows) =
      cons_some (snapshot_event s (decode_levels s.bids) (decode_levels s.asks))
        (snapshot_events rows)

  unfoldable pub load_session :
      List (SnapshotRow Uuid DateTime)
      → List (LevelChangeRow Uuid DateTime)
      → List (TradeRow Uuid DateTime)
      → Option (List ReplayEvent)
  load_session snapshots level_changes trades = elim (snapshot_events snapshots) [
    | none ↦ none
    | some events ↦ some (
        new (
          events
          ++ map (λ p. depth p.0 p.1) (reconstruct_depth_updates level_changes)
          ++ map (λ r. trade r.seq (trade_row_to_event host r)) trades))
  ]
