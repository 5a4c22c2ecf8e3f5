-- ===== src/Verify/Clean.antt =====
-- What a session is like that the audit calls verified (src/verify/mod.rs).
use futures_orderbook.Prelude.{
  ℕ, ◌+◌, ◌≤◌, ◌≡◌, ◌↔◌, refl, String, List, length, Bool, true, ◌==◌, ==_iff, Option, none, ok,
  All, arith,
}
use futures_orderbook.Recording.Rows.{
  SessionRecord, RawEventRow, TradeRow, LevelChangeRow, SnapshotRow,
}
use futures_orderbook.Verify.{
  VerifyReport, Answers, is_unparsed, foreign_trade, foreign_level, expected_symbol, issues, audit,
  verify_session,
}
use futures_orderbook.Verify.Counts.{
  count_if-none, marker_ids-none, occurrences, repeated-none, duplicates-none, event_finals, Rises,
  sequence_anomalies-none,
}
use futures_orderbook.Verify.Meant.{
  iff_trans, parsed_iff, IsReal, IsReal-iff, HasSymbol, symbols_iff, NoTwoSame, Distinct-iff,
}

sums_none :
    (a b c d e f g : ℕ)
    → a + b + c + d + (e + f) + g ≡ 0
    → (a ≡ 0) × (b ≡ 0) × (c ≡ 0) × (d ≡ 0) × (e ≡ 0) × (f ≡ 0) × (g ≡ 0)
sums_none a b c d e f g h = (
  omega (arith, h),
  omega (arith, h),
  omega (arith, h),
  omega (arith, h),
  omega (arith, h),
  omega (arith, h),
  omega (arith, h),
)

module _ {Uuid DateTime : Type 0} where
  pub record IsClean (is_json : String → Bool) (session : Option (SessionRecord Uuid DateTime))
      (raw : List (RawEventRow Uuid DateTime)) (trades : List (TradeRow Uuid DateTime))
      (levels : List (LevelChangeRow Uuid DateTime)) : Type 0 where
    pub parsed : All (λ r. is_json r.raw_payload ≡ true) raw
    pub ids : (id : ℕ) → occurrences id trades ≤ 1
    pub identities : NoTwoSame levels
    pub real : All IsReal trades
    pub trade_symbols : All (λ t. HasSymbol session t.symbol) trades
    pub level_symbols : All (λ r. HasSymbol session r.symbol) levels
    pub finals : Rises none (event_finals levels)

  module _ (is_json : String → Bool) (session : Option (SessionRecord Uuid DateTime))
      (raw : List (RawEventRow Uuid DateTime)) (trades : List (TradeRow Uuid DateTime))
      (levels : List (LevelChangeRow Uuid DateTime)) where
    abbrev report : (depth_events snapshots : ℕ) → VerifyReport Uuid DateTime
    report depth_events snapshots = audit is_json session raw trades levels depth_events snapshots

    no_issues : (n m : ℕ) → (issues (report n m) ≡ 0) ↔ IsClean is_json session raw trades levels
    unfolding issues audit
    no_issues n m =
        let expected = expected_symbol session in
        let parsed =
          iff_trans (count_if-none (is_unparsed is_json) raw)
            (parsed_iff is_json (λ r. r.raw_payload) raw) in
        let ids = repeated-none trades in
        let identities = iff_trans (duplicates-none levels) (Distinct-iff levels) in
        let real = iff_trans (marker_ids-none trades) (IsReal-iff trades) in
        let trade_symbols =
          iff_trans (count_if-none (foreign_trade expected) trades)
            (symbols_iff session (λ t. t.symbol) trades) in
        let level_symbols =
          iff_trans (count_if-none (foreign_level expected) levels)
            (symbols_iff session (λ r. r.symbol) levels) in
        let finals = sequence_anomalies-none levels in
        (
          (λ e.
              let (a, b, c, d, f, g, h) = sums_none _ _ _ _ _ _ _ e in
              record {
                parsed = parsed.0 a;
                ids = ids.0 b;
                identities = identities.0 c;
                real = real.0 d;
                trade_symbols = trade_symbols.0 f;
                level_symbols = level_symbols.0 g;
                finals = finals.0 h;
              }),
          (λ c.
              let a = parsed.1 c.parsed in
              let b = ids.1 c.ids in
              let d = identities.1 c.identities in
              let f = real.1 c.real in
              let g = trade_symbols.1 c.trade_symbols in
              let h = level_symbols.1 c.level_symbols in
              let i = finals.1 c.finals in omega (arith, a, b, d, f, g, h, i)),
        )

    -- When the storage answers every read, the audit returns a report; and the report says verified
    -- exactly when every raw payload parses, no trade id occurs twice, no two level changes have the
    -- same last update id, side and price, no trade has a price or quantity of 0 or the type `NA`, every trade and level change has the
    -- session's symbol if there is a session, and the last update ids of the depth events, in the
    -- order of the rows, rise.
    pub verify_session-verified :
        (depth_events : ℕ) (snapshots : List (SnapshotRow Uuid DateTime))
        → let storage : Answers Uuid DateTime = record {
          get_session = ok session;
          read_raw_events = ok raw;
          read_trades = ok trades;
          read_level_changes = ok levels;
          count_depth_events = ok depth_events;
          read_snapshots = ok snapshots;
        } in
          (r : VerifyReport Uuid DateTime) × (verify_session is_json storage ≡ ok r)
          × ((r.verified ≡ true) ↔ IsClean is_json session raw trades levels)
    unfolding verify_session
    verify_session-verified depth_events snapshots =
        let before = report depth_events (length snapshots) in
        let clean = no_issues depth_events (length snapshots) in
        let zero = ==_iff (issues before) 0 in
        (
          record before { verified = issues before == 0 },
          refl,
          ((λ e. clean.0 (zero.0 e)), (λ c. zero.1 (clean.1 c))),
        )
