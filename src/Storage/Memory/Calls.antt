-- ===== src/Storage/Memory/Calls.antt =====
-- The calls that change the storage in memory, and the rows that they bring (src/storage/memory.rs).
use futures_orderbook.Prelude.{String, ◌≡◌, refl, sym, ◌∙◌, ap, List, [], ◌∷◌, ◌++◌, Bool, Option}
use mathlib.Core.List.{append_assoc, append-nil}
use futures_orderbook.Recording.Host.{Host}
use futures_orderbook.Recording.Rows.{
  SessionRecord, RawEventRow, TradeRow, LevelChangeRow, SnapshotRow,
}
use futures_orderbook.Storage.Analytics.{
  AnalyticsSnapshotRow, AnalyticsEventRow, DeltaByPriceRow, LiquidityEventRow,
}
use futures_orderbook.Storage.Memory.{
  MemoryDb, insert_session, update_session_status, insert_raw_events, insert_trades,
  insert_level_changes, insert_snapshot, insert_analytics_snapshots, insert_analytics_events,
  insert_delta_by_price, insert_liquidity_events,
}

-- The calls that change the storage.
pub data Call (Uuid DateTime Float : Type 0) : Type 0 where
  session : SessionRecord Uuid DateTime → Call Uuid DateTime Float
  status : Uuid → String → Option DateTime → Call Uuid DateTime Float
  raw_events : List (RawEventRow Uuid DateTime) → Call Uuid DateTime Float
  trades : List (TradeRow Uuid DateTime) → Call Uuid DateTime Float
  level_changes : List (LevelChangeRow Uuid DateTime) → Call Uuid DateTime Float
  snapshot : SnapshotRow Uuid DateTime → Call Uuid DateTime Float
  analytics_snapshots : List (AnalyticsSnapshotRow Uuid DateTime Float) → Call Uuid DateTime Float
  analytics_events : List (AnalyticsEventRow Uuid DateTime) → Call Uuid DateTime Float
  delta_by_price : List (DeltaByPriceRow Uuid DateTime) → Call Uuid DateTime Float
  liquidity_events : List (LiquidityEventRow Uuid DateTime) → Call Uuid DateTime Float

module _ {Uuid DateTime Float : Type 0} where
  abbrev pub raw_of : Call Uuid DateTime Float → List (RawEventRow Uuid DateTime)
  raw_of (raw_events rows) = rows
  raw_of _ = []

  abbrev pub trades_of : Call Uuid DateTime Float → List (TradeRow Uuid DateTime)
  trades_of (trades rows) = rows
  trades_of _ = []

  abbrev pub levels_of : Call Uuid DateTime Float → List (LevelChangeRow Uuid DateTime)
  levels_of (level_changes rows) = rows
  levels_of _ = []

  abbrev pub snapshots_of : Call Uuid DateTime Float → List (SnapshotRow Uuid DateTime)
  snapshots_of (snapshot row) = row ∷ []
  snapshots_of _ = []

  -- The rows that the calls bring, in the order of the calls.
  abbrev pub brought :
      {A : Type 0} → (Call Uuid DateTime Float → List A) → List (Call Uuid DateTime Float) → List A
  brought of [] = []
  brought of (c ∷ calls) = of c ++ brought of calls

same_rows : {A : Type 0} (xs : List A) → xs ≡ xs ++ []
same_rows xs = sym (append-nil xs)

module _ (host : Host) (Float : Type 0) (same : host.Uuid → host.Uuid → Bool) where
  open host use {Uuid, DateTime}

  unfoldable pub call :
      Call Uuid DateTime Float → MemoryDb Uuid DateTime Float → MemoryDb Uuid DateTime Float
  call (session s) db = insert_session host Float same s db
  call (status id text ended_at) db = update_session_status host Float same id text ended_at db
  call (raw_events rows) db = insert_raw_events host Float same rows db
  call (trades rows) db = insert_trades host Float same rows db
  call (level_changes rows) db = insert_level_changes host Float same rows db
  call (snapshot row) db = insert_snapshot host Float same row db
  call (analytics_snapshots rows) db = insert_analytics_snapshots host Float same rows db
  call (analytics_events rows) db = insert_analytics_events host Float same rows db
  call (delta_by_price rows) db = insert_delta_by_price host Float same rows db
  call (liquidity_events rows) db = insert_liquidity_events host Float same rows db

  unfoldable pub call_all :
      List (Call Uuid DateTime Float) → MemoryDb Uuid DateTime Float → MemoryDb Uuid DateTime Float
  call_all [] db = db
  call_all (c ∷ calls) db = call_all calls (call c db)

  pub raw_grow :
      (c : Call Uuid DateTime Float) (db : MemoryDb Uuid DateTime Float)
      → (call c db).raw_events ≡ db.raw_events ++ raw_of c
  unfolding call insert_session update_session_status insert_raw_events insert_trades
      insert_level_changes insert_snapshot insert_analytics_snapshots insert_analytics_events
      insert_delta_by_price insert_liquidity_events
  raw_grow (session s) db = same_rows db.raw_events
  raw_grow (status id text ended_at) db = same_rows db.raw_events
  raw_grow (raw_events rows) db = refl
  raw_grow (trades rows) db = same_rows db.raw_events
  raw_grow (level_changes rows) db = same_rows db.raw_events
  raw_grow (snapshot row) db = same_rows db.raw_events
  raw_grow (analytics_snapshots rows) db = same_rows db.raw_events
  raw_grow (analytics_events rows) db = same_rows db.raw_events
  raw_grow (delta_by_price rows) db = same_rows db.raw_events
  raw_grow (liquidity_events rows) db = same_rows db.raw_events

  pub trades_grow :
      (c : Call Uuid DateTime Float) (db : MemoryDb Uuid DateTime Float)
      → (call c db).trades ≡ db.trades ++ trades_of c
  unfolding call insert_session update_session_status insert_raw_events insert_trades
      insert_level_changes insert_snapshot insert_analytics_snapshots insert_analytics_events
      insert_delta_by_price insert_liquidity_events
  trades_grow (session s) db = same_rows db.trades
  trades_grow (status id text ended_at) db = same_rows db.trades
  trades_grow (raw_events rows) db = same_rows db.trades
  trades_grow (trades rows) db = refl
  trades_grow (level_changes rows) db = same_rows db.trades
  trades_grow (snapshot row) db = same_rows db.trades
  trades_grow (analytics_snapshots rows) db = same_rows db.trades
  trades_grow (analytics_events rows) db = same_rows db.trades
  trades_grow (delta_by_price rows) db = same_rows db.trades
  trades_grow (liquidity_events rows) db = same_rows db.trades

  pub levels_grow :
      (c : Call Uuid DateTime Float) (db : MemoryDb Uuid DateTime Float)
      → (call c db).level_changes ≡ db.level_changes ++ levels_of c
  unfolding call insert_session update_session_status insert_raw_events insert_trades
      insert_level_changes insert_snapshot insert_analytics_snapshots insert_analytics_events
      insert_delta_by_price insert_liquidity_events
  levels_grow (session s) db = same_rows db.level_changes
  levels_grow (status id text ended_at) db = same_rows db.level_changes
  levels_grow (raw_events rows) db = same_rows db.level_changes
  levels_grow (trades rows) db = same_rows db.level_changes
  levels_grow (level_changes rows) db = refl
  levels_grow (snapshot row) db = same_rows db.level_changes
  levels_grow (analytics_snapshots rows) db = same_rows db.level_changes
  levels_grow (analytics_events rows) db = same_rows db.level_changes
  levels_grow (delta_by_price rows) db = same_rows db.level_changes
  levels_grow (liquidity_events rows) db = same_rows db.level_changes

  pub snapshots_grow :
      (c : Call Uuid DateTime Float) (db : MemoryDb Uuid DateTime Float)
      → (call c db).snapshots ≡ db.snapshots ++ snapshots_of c
  unfolding call insert_session update_session_status insert_raw_events insert_trades
      insert_level_changes insert_snapshot insert_analytics_snapshots insert_analytics_events
      insert_delta_by_price insert_liquidity_events
  snapshots_grow (session s) db = same_rows db.snapshots
  snapshots_grow (status id text ended_at) db = same_rows db.snapshots
  snapshots_grow (raw_events rows) db = same_rows db.snapshots
  snapshots_grow (trades rows) db = same_rows db.snapshots
  snapshots_grow (level_changes rows) db = same_rows db.snapshots
  snapshots_grow (snapshot row) db = refl
  snapshots_grow (analytics_snapshots rows) db = same_rows db.snapshots
  snapshots_grow (analytics_events rows) db = same_rows db.snapshots
  snapshots_grow (delta_by_price rows) db = same_rows db.snapshots
  snapshots_grow (liquidity_events rows) db = same_rows db.snapshots

  -- A table to which each call adds its rows holds what the calls brought.
  pub call_all-brought :
      {A : Type 0} (table : MemoryDb Uuid DateTime Float → List A)
      (of : Call Uuid DateTime Float → List A)
      → ((c : Call Uuid DateTime Float) (db : MemoryDb Uuid DateTime Float)
          → table (call c db) ≡ table db ++ of c)
      → (calls : List (Call Uuid DateTime Float)) (db : MemoryDb Uuid DateTime Float)
      → table (call_all calls db) ≡ table db ++ brought of calls
  unfolding call_all
  call_all-brought table of grow [] db = same_rows (table db)
  call_all-brought table of grow (c ∷ calls) db =
      call_all-brought table of grow calls (call c db)
      ∙ ap (λ rows. rows ++ brought of calls) (grow c db)
      ∙ append_assoc (table db) (of c) (brought of calls)
