-- ===== src/Storage/Memory.antt =====
-- src/storage/memory.rs: the storage in memory; every operation of it succeeds. `same` compares ids and
-- `earlier` dates. A read of all sessions takes the order in which the hash map gives them. Numbers of
-- rows and bytes are below 2^64, as the rows are in memory.
pub mod Picked
pub mod Calls
pub mod Reads
use text.Mathlib.Text.{◌==◌ as str_eq}
use futures_orderbook.Prelude.{
  ℕ, ◌+◌, ◌*◌, String, List, [], ◌∷◌, ◌++◌, length, take, Bool, not, ◌&&◌, leb, Option, none, some,
  if◌then◌else◌,
}
use futures_orderbook.Recording.Host.{Host, datetime_to_ms}
use futures_orderbook.Recording.Rows.{
  SessionRecord, RawEventRow, TradeRow, LevelChangeRow, SnapshotRow,
}
use futures_orderbook.Trades.Processor.{contains}
use futures_orderbook.Storage.Sorts.{sort_by, sort_by_key}
use futures_orderbook.Storage.Analytics.{
  AnalyticsSnapshotRow, AnalyticsEventRow, DeltaByPriceRow, LiquidityEventRow,
}

pub record MemoryDb (Uuid DateTime Float : Type 0) : Type 0 where
  pub sessions : List (SessionRecord Uuid DateTime)
  pub raw_events : List (RawEventRow Uuid DateTime)
  pub trades : List (TradeRow Uuid DateTime)
  pub level_changes : List (LevelChangeRow Uuid DateTime)
  pub snapshots : List (SnapshotRow Uuid DateTime)
  pub analytics_snapshots : List (AnalyticsSnapshotRow Uuid DateTime Float)
  pub analytics_events : List (AnalyticsEventRow Uuid DateTime)
  pub delta_by_price : List (DeltaByPriceRow Uuid DateTime)
  pub liquidity_events : List (LiquidityEventRow Uuid DateTime)

-- The database of `MemoryStorage::new`.
abbrev pub new : {Uuid DateTime Float : Type 0} → MemoryDb Uuid DateTime Float
new = record {
  sessions = [];
  raw_events = [];
  trades = [];
  level_changes = [];
  snapshots = [];
  analytics_snapshots = [];
  analytics_events = [];
  delta_by_price = [];
  liquidity_events = [];
}

abbrev pub filter : {A : Type 0} → (A → Bool) → List A → List A
filter p [] = []
filter p (x ∷ xs) = let rest = filter p xs in if p x then x ∷ rest else rest

-- The set of numbers, each once.
abbrev add_once : ℕ → List ℕ → List ℕ
add_once n set = if contains n set then set else n ∷ set

module _ (host : Host) (Float : Type 0) (same : host.Uuid → host.Uuid → Bool) where
  open host use {Uuid, DateTime, byte_len}

  abbrev Db : Type 0
  Db = MemoryDb Uuid DateTime Float

  abbrev find : Uuid → List (SessionRecord Uuid DateTime) → Option (SessionRecord Uuid DateTime)
  find id [] = none
  find id (s ∷ ss) = if same s.session_id id then some s else find id ss

  unfoldable pub insert_session : SessionRecord Uuid DateTime → Db → Db
  insert_session session db = record db {
    sessions = session ∷ filter (λ s. not (same s.session_id session.session_id)) db.sessions;
  }

  abbrev with_status :
      Uuid
      → (status : String) → Option DateTime
      → List (SessionRecord Uuid DateTime)
      → List (SessionRecord Uuid DateTime)
  with_status id status ended_at [] = []
  with_status id status ended_at (s ∷ ss) =
      let rest = with_status id status ended_at ss in
      if same s.session_id id
      then record s { status = status; ended_at = ended_at } ∷ ss
      else s ∷ rest

  unfoldable pub update_session_status : Uuid → (status : String) → Option DateTime → Db → Db
  update_session_status id status ended_at db = record db {
    sessions = with_status id status ended_at db.sessions;
  }

  unfoldable pub get_session : Uuid → Db → Option (SessionRecord Uuid DateTime)
  get_session id db = find id db.sessions

  unfoldable pub list_sessions :
      (earlier : DateTime → DateTime → Bool)
      → (limit : ℕ) → (values : List (SessionRecord Uuid DateTime))
      → List (SessionRecord Uuid DateTime)
  list_sessions earlier limit values =
      take limit
        (sort_by (λ (a b : SessionRecord Uuid DateTime). earlier b.started_at a.started_at) values)

  unfoldable pub insert_raw_events : List (RawEventRow Uuid DateTime) → Db → Db
  insert_raw_events batch db = record db { raw_events = db.raw_events ++ batch }

  unfoldable pub insert_trades : List (TradeRow Uuid DateTime) → Db → Db
  insert_trades batch db = record db { trades = db.trades ++ batch }

  unfoldable pub insert_level_changes : List (LevelChangeRow Uuid DateTime) → Db → Db
  insert_level_changes batch db = record db { level_changes = db.level_changes ++ batch }

  unfoldable pub insert_snapshot : SnapshotRow Uuid DateTime → Db → Db
  insert_snapshot row db = record db { snapshots = db.snapshots ++ row ∷ [] }

  unfoldable pub insert_analytics_snapshots :
      List (AnalyticsSnapshotRow Uuid DateTime Float) → Db → Db
  insert_analytics_snapshots batch db = record db {
    analytics_snapshots = db.analytics_snapshots ++ batch;
  }

  unfoldable pub insert_analytics_events : List (AnalyticsEventRow Uuid DateTime) → Db → Db
  insert_analytics_events batch db = record db { analytics_events = db.analytics_events ++ batch }

  unfoldable pub insert_delta_by_price : List (DeltaByPriceRow Uuid DateTime) → Db → Db
  insert_delta_by_price batch db = record db { delta_by_price = db.delta_by_price ++ batch }

  unfoldable pub insert_liquidity_events : List (LiquidityEventRow Uuid DateTime) → Db → Db
  insert_liquidity_events batch db = record db { liquidity_events = db.liquidity_events ++ batch }

  unfoldable pub in_session : {A : Type 0} → (extract : A → Uuid) → Uuid → List A → List A
  in_session extract id rows = filter (λ r. same (extract r) id) rows

  unfoldable pub read_raw_events : Uuid → Db → List (RawEventRow Uuid DateTime)
  read_raw_events id db = sort_by_key (λ r. r.seq) (in_session (λ r. r.session_id) id db.raw_events)

  unfoldable pub read_trades : Uuid → Db → List (TradeRow Uuid DateTime)
  read_trades id db = sort_by_key (λ r. r.seq) (in_session (λ r. r.session_id) id db.trades)

  unfoldable pub read_level_changes : Uuid → Db → List (LevelChangeRow Uuid DateTime)
  read_level_changes id db =
      sort_by_key (λ r. r.seq) (in_session (λ r. r.session_id) id db.level_changes)

  unfoldable pub read_snapshots : Uuid → Db → List (SnapshotRow Uuid DateTime)
  read_snapshots id db = sort_by_key (λ r. r.seq) (in_session (λ r. r.session_id) id db.snapshots)

  abbrev in_range : (symbol : String) → (start_ms end_ms : ℕ) → String → DateTime → Bool
  in_range symbol start_ms end_ms row_symbol time =
      str_eq row_symbol symbol
      && leb start_ms (datetime_to_ms host time)
      && leb (datetime_to_ms host time) end_ms

  unfoldable pub read_level_changes_range :
      String → (start_ms end_ms : ℕ) → Db → List (LevelChangeRow Uuid DateTime)
  read_level_changes_range symbol start_ms end_ms db =
      sort_by_key (λ r. r.seq)
        (filter (λ r. in_range symbol start_ms end_ms r.symbol r.exchange_event_time)
          db.level_changes)

  unfoldable pub read_trades_range :
      String → (start_ms end_ms : ℕ) → Db → List (TradeRow Uuid DateTime)
  read_trades_range symbol start_ms end_ms db =
      sort_by_key (λ r. r.seq)
        (filter (λ r. in_range symbol start_ms end_ms r.symbol r.exchange_event_time) db.trades)

  unfoldable pub read_raw_events_range :
      String → (start_ms end_ms : ℕ) → Db → List (RawEventRow Uuid DateTime)
  read_raw_events_range symbol start_ms end_ms db =
      sort_by_key (λ r. r.seq)
        (filter (λ r. in_range symbol start_ms end_ms r.symbol r.exchange_event_time) db.raw_events)

  unfoldable pub count_trades : Uuid → Db → ℕ
  count_trades id db = length (in_session (λ r. r.session_id) id db.trades)

  unfoldable pub count_level_changes : Uuid → Db → ℕ
  count_level_changes id db = length (in_session (λ r. r.session_id) id db.level_changes)

  unfoldable pub count_raw_events : Uuid → Db → ℕ
  count_raw_events id db = length (in_session (λ r. r.session_id) id db.raw_events)

  abbrev seqs_of : Uuid → List (LevelChangeRow Uuid DateTime) → List ℕ
  seqs_of id [] = []
  seqs_of id (r ∷ rs) =
      let seqs = seqs_of id rs in if same r.session_id id then add_once r.seq seqs else seqs

  unfoldable pub count_depth_events : Uuid → Db → ℕ
  count_depth_events id db = length (seqs_of id db.level_changes)

  abbrev payload_bytes : List (RawEventRow Uuid DateTime) → ℕ
  payload_bytes [] = 0
  payload_bytes (r ∷ rs) = byte_len r.raw_payload + payload_bytes rs

  unfoldable pub database_size : Db → ℕ
  database_size db =
      payload_bytes db.raw_events + length db.trades * 64 + length db.level_changes * 48

  unfoldable pub read_delta_by_price : Uuid → Db → List (DeltaByPriceRow Uuid DateTime)
  read_delta_by_price id db =
      sort_by_key (λ r. r.price) (in_session (λ r. r.session_id) id db.delta_by_price)

  unfoldable pub count_analytics_snapshots : Uuid → Db → ℕ
  count_analytics_snapshots id db =
      length (in_session (λ r. r.session_id) id db.analytics_snapshots)

  unfoldable pub count_analytics_events : Uuid → Db → ℕ
  count_analytics_events id db = length (in_session (λ r. r.session_id) id db.analytics_events)

  module _ (earlier : DateTime → DateTime → Bool) where
    abbrev sorted_by_time : {A : Type 0} → (A → DateTime) → List A → List A
    sorted_by_time time = sort_by (λ a b. earlier (time a) (time b))

    unfoldable pub read_analytics_snapshots :
        Uuid → Db → List (AnalyticsSnapshotRow Uuid DateTime Float)
    read_analytics_snapshots id db =
        sorted_by_time (λ r. r.timestamp_ms)
          (in_session (λ r. r.session_id) id db.analytics_snapshots)

    unfoldable pub read_analytics_events : Uuid → Db → List (AnalyticsEventRow Uuid DateTime)
    read_analytics_events id db =
        sorted_by_time (λ r. r.ts_ms) (in_session (λ r. r.session_id) id db.analytics_events)

    unfoldable pub read_liquidity_events : Uuid → Db → List (LiquidityEventRow Uuid DateTime)
    read_liquidity_events id db =
        sorted_by_time (λ r. r.ts_ms) (in_session (λ r. r.session_id) id db.liquidity_events)
