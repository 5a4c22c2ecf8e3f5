-- ===== src/Storage/Memory/Reads.antt =====
-- What the storage in memory reads back after any calls (src/storage/memory.rs).
use futures_orderbook.Prelude.{◌≡◌, ◌↔◌, subst, List, Bool, true}
use futures_orderbook.Recording.Host.{Host}
use futures_orderbook.Storage.Memory.{
  MemoryDb, new, in_session, read_raw_events, read_trades, read_level_changes, read_snapshots,
}
use futures_orderbook.Storage.Memory.Picked.{IsRead, sort_by_key-IsRead}
use futures_orderbook.Storage.Memory.Calls.{
  Call, raw_of, trades_of, levels_of, snapshots_of, brought, raw_grow, trades_grow, levels_grow,
  snapshots_grow, call_all, call_all-brought,
}

module _ (host : Host) (Float : Type 0) (same : host.Uuid → host.Uuid → Bool) where
  open host use {Uuid, DateTime}

  -- The four reads of a session, against the rows that the calls brought.
  pub record ReadsBack (id : Uuid) (calls : List (Call Uuid DateTime Float))
      (db : MemoryDb Uuid DateTime Float) : Type 0 where
    pub raw :
        IsRead
          (λ r. r.seq)
          (λ r. r.session_id)
          id
          (brought raw_of calls)
          (read_raw_events host Float same id db)
    pub trades :
        IsRead
          (λ r. r.seq)
          (λ r. r.session_id)
          id
          (brought trades_of calls)
          (read_trades host Float same id db)
    pub levels :
        IsRead
          (λ r. r.seq)
          (λ r. r.session_id)
          id
          (brought levels_of calls)
          (read_level_changes host Float same id db)
    pub snapshots :
        IsRead
          (λ r. r.seq)
          (λ r. r.session_id)
          id
          (brought snapshots_of calls)
          (read_snapshots host Float same id db)

  -- When the comparison of ids is exact: after any calls on a new storage, a read of a session's raw
  -- events, trades, level changes or snapshots has sequence numbers that do not descend; and for each
  -- sequence number the rows read with it are those rows of that table that the calls brought with it
  -- and with that session's id, in the order in which they were brought.
  pub call_all-new-ReadsBack :
      ((a b : Uuid) → (same a b ≡ true) ↔ (a ≡ b))
      → (id : Uuid) (calls : List (Call Uuid DateTime Float))
      → ReadsBack id calls (call_all host Float same calls new)
  unfolding read_raw_events read_trades read_level_changes read_snapshots in_session
  call_all-new-ReadsBack exact id calls =
      let db = call_all host Float same calls new in
      record {
        raw =
            subst
              (λ given.
                IsRead (λ r. r.seq) (λ r. r.session_id) id given
                  (read_raw_events host Float same id db))
              (call_all-brought host Float same (λ d. d.raw_events) raw_of
                (raw_grow host Float same) calls new)
              (sort_by_key-IsRead (λ r. r.seq) (λ r. r.session_id) id same exact db.raw_events);
        trades =
            subst
              (λ given.
                IsRead (λ r. r.seq) (λ r. r.session_id) id given
                  (read_trades host Float same id db))
              (call_all-brought host Float same (λ d. d.trades) trades_of
                (trades_grow host Float same) calls new)
              (sort_by_key-IsRead (λ r. r.seq) (λ r. r.session_id) id same exact db.trades);
        levels =
            subst
              (λ given.
                IsRead (λ r. r.seq) (λ r. r.session_id) id given
                  (read_level_changes host Float same id db))
              (call_all-brought host Float same (λ d. d.level_changes) levels_of
                (levels_grow host Float same) calls new)
              (sort_by_key-IsRead (λ r. r.seq) (λ r. r.session_id) id same exact db.level_changes);
        snapshots =
            subst
              (λ given.
                IsRead (λ r. r.seq) (λ r. r.session_id) id given
                  (read_snapshots host Float same id db))
              (call_all-brought host Float same (λ d. d.snapshots) snapshots_of
                (snapshots_grow host Float same) calls new)
              (sort_by_key-IsRead (λ r. r.seq) (λ r. r.session_id) id same exact db.snapshots);
      }
