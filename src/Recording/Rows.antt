-- ===== src/Recording/Rows.antt =====
-- The rows of src/storage/mod.rs, the record of a session (src/recording/session.rs), and the
-- records of the queue in src/recording/worker.rs.
use futures_orderbook.Prelude.{ℕ, String, List, Option}

pub record RawEventRow (Uuid DateTime : Type 0) : Type 0 where
  pub session_id : Uuid
  pub seq : ℕ
  pub symbol : String
  pub stream_type : String
  pub exchange_event_time : DateTime
  pub exchange_transaction_time : Option DateTime
  pub local_receive_time : DateTime
  pub raw_payload : String

pub record TradeRow (Uuid DateTime : Type 0) : Type 0 where
  pub session_id : Uuid
  pub seq : ℕ
  pub symbol : String
  pub trade_id : ℕ
  pub first_trade_id : Option ℕ
  pub last_trade_id : Option ℕ
  pub price : ℕ
  pub quantity : ℕ
  pub aggressor_side : String
  pub exchange_event_time : DateTime
  pub trade_time : DateTime
  pub local_receive_time : DateTime
  pub order_type : String

pub record LevelChangeRow (Uuid DateTime : Type 0) : Type 0 where
  pub session_id : Uuid
  pub seq : ℕ
  pub symbol : String
  pub exchange_event_time : DateTime
  pub exchange_transaction_time : DateTime
  pub local_receive_time : DateTime
  pub first_update_id : ℕ
  pub final_update_id : ℕ
  pub previous_final_update_id : ℕ
  pub side : String
  pub price : ℕ
  pub quantity : ℕ

pub record SnapshotRow (Uuid DateTime : Type 0) : Type 0 where
  pub session_id : Uuid
  pub seq : ℕ
  pub symbol : String
  pub snapshot_update_id : ℕ
  pub timestamp : DateTime
  pub bids : String
  pub asks : String

pub record SessionRecord (Uuid DateTime : Type 0) : Type 0 where
  pub session_id : Uuid
  pub exchange : String
  pub market_type : String
  pub symbol : String
  pub contract_type : String
  pub started_at : DateTime
  pub ended_at : Option DateTime
  pub software_version : String
  pub git_commit : String
  pub depth_stream : String
  pub trade_stream : String
  pub status : String

pub data Record (Uuid DateTime : Type 0) : Type 0 where
  raw : RawEventRow Uuid DateTime → Record Uuid DateTime
  trade : TradeRow Uuid DateTime → Record Uuid DateTime
  depth : List (LevelChangeRow Uuid DateTime) → Record Uuid DateTime
  snapshot : SnapshotRow Uuid DateTime → Record Uuid DateTime
