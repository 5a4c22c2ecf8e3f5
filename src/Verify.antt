-- ===== src/Verify.antt =====
-- src/verify/mod.rs: the audit of a recorded session, over the answers of the storage. `is_json` is
-- the parser of JSON texts. The numbers of rows are lengths of lists in memory, below 2^64.
pub mod Counts
pub mod Meant
pub mod Clean
use text.Mathlib.Text.{◌==◌ as str_eq}
use futures_orderbook.Prelude.{
  ℕ, suc, max, ◌+◌, String, List, [], ◌∷◌, length, Bool, false, not, ◌&&◌, ◌||◌, ◌==◌, leb, ltb,
  Option, none, some, if◌then◌else◌, Result, ok, ◌>>=◌,
}
use futures_orderbook.TreeMap.{TreeMap, get, insert}
use futures_orderbook.Analytics.Shadow.{unwrap_or_zero}
use futures_orderbook.Recording.Rows.{
  SessionRecord, RawEventRow, TradeRow, LevelChangeRow, SnapshotRow,
}

pub record VerifyReport (Uuid DateTime : Type 0) : Type 0 where
  pub session : Option (SessionRecord Uuid DateTime)
  pub raw_events : ℕ
  pub raw_parse_errors : ℕ
  pub trade_rows : ℕ
  pub level_change_rows : ℕ
  pub depth_events : ℕ
  pub snapshots : ℕ
  pub duplicate_trade_ids : List ℕ
  pub duplicate_depth_identities : ℕ
  pub marker_as_trade_ids : List ℕ
  pub invalid_symbol_rows : ℕ
  pub depth_sequence_anomalies : ℕ
  pub verified : Bool

-- What the storage answers for the session.
pub record Answers (Uuid DateTime : Type 0) : Type 0 where
  pub get_session : Result (Option (SessionRecord Uuid DateTime)) String
  pub read_raw_events : Result (List (RawEventRow Uuid DateTime)) String
  pub read_trades : Result (List (TradeRow Uuid DateTime)) String
  pub read_level_changes : Result (List (LevelChangeRow Uuid DateTime)) String
  pub count_depth_events : Result ℕ String
  pub read_snapshots : Result (List (SnapshotRow Uuid DateTime)) String

abbrev pub count_if {ℓ} : {A : Type ℓ} → (A → Bool) → List A → ℕ
count_if p [] = 0
count_if p (x ∷ xs) = let rest = count_if p xs in if p x then suc rest else rest

-- A row of another symbol than the session's, where there is a session.
abbrev pub is_foreign : Option String → String → Bool
is_foreign none symbol = false
is_foreign (some expected) symbol = not (str_eq symbol expected)

-- The ids that have a count above 1, in ascending order.
abbrev pub repeated : TreeMap ℕ → List ℕ
repeated [] = []
repeated ((id, c) ∷ m) = let rest = repeated m in if ltb 1 c then id ∷ rest else rest

-- The last id of an event against that of the event before it.
abbrev pub anomaly : ℕ → Option ℕ → ℕ
anomaly final none = 0
anomaly final (some prev) = if leb final prev then 1 else 0

module _ {Uuid DateTime : Type 0} where
  unfoldable pub issues : VerifyReport Uuid DateTime → ℕ
  issues r =
      r.raw_parse_errors
      + length r.duplicate_trade_ids
      + r.duplicate_depth_identities
      + length r.marker_as_trade_ids
      + r.invalid_symbol_rows
      + r.depth_sequence_anomalies

  abbrev pub is_marker : TradeRow Uuid DateTime → Bool
  is_marker t = t.price == 0 || t.quantity == 0 || str_eq t.order_type "NA"

  abbrev pub marker_ids : List (TradeRow Uuid DateTime) → List ℕ
  marker_ids [] = []
  marker_ids (t ∷ ts) = let rest = marker_ids ts in if is_marker t then t.trade_id ∷ rest else rest

  unfoldable pub seen_trade_ids : List (TradeRow Uuid DateTime) → TreeMap ℕ → TreeMap ℕ
  seen_trade_ids [] m = m
  seen_trade_ids (t ∷ ts) m =
      seen_trade_ids ts (insert t.trade_id (unwrap_or_zero (get t.trade_id m) + 1) m)

  abbrev pub same_identity : LevelChangeRow Uuid DateTime → LevelChangeRow Uuid DateTime → Bool
  same_identity r q =
      r.final_update_id == q.final_update_id && str_eq r.side q.side && r.price == q.price

  abbrev pub is_known : LevelChangeRow Uuid DateTime → List (LevelChangeRow Uuid DateTime) → Bool
  is_known r [] = false
  is_known r (q ∷ seen) = same_identity q r || is_known r seen

  -- The rows whose identity is in the set.
  abbrev pub duplicates :
      List (LevelChangeRow Uuid DateTime) → List (LevelChangeRow Uuid DateTime) → ℕ
  duplicates seen [] = 0
  duplicates seen (r ∷ rs) =
      let old = duplicates seen rs in
      let new = duplicates (r ∷ seen) rs in if is_known r seen then suc old else new

  -- The loop over the rows, in the event `seq` whose largest id so far is `final`.
  unfoldable pub in_event :
      (seq final : ℕ) (prev : Option ℕ) → List (LevelChangeRow Uuid DateTime) → ℕ
  in_event seq final prev [] = anomaly final prev
  in_event seq final prev (r ∷ rs) =
      let same = in_event seq (max final r.final_update_id) prev rs in
      let next = in_event r.seq r.final_update_id (some final) rs in
      if r.seq == seq then same else anomaly final prev + next

  unfoldable pub sequence_anomalies : List (LevelChangeRow Uuid DateTime) → ℕ
  sequence_anomalies [] = 0
  sequence_anomalies (r ∷ rs) = in_event r.seq r.final_update_id none rs

  abbrev pub expected_symbol : Option (SessionRecord Uuid DateTime) → Option String
  expected_symbol none = none
  expected_symbol (some s) = some s.symbol

  abbrev pub foreign_trade : Option String → TradeRow Uuid DateTime → Bool
  foreign_trade expected t = is_foreign expected t.symbol

  abbrev pub foreign_level : Option String → LevelChangeRow Uuid DateTime → Bool
  foreign_level expected r = is_foreign expected r.symbol

  module _ (is_json : String → Bool) where
    abbrev pub is_unparsed : RawEventRow Uuid DateTime → Bool
    is_unparsed r = not (is_json r.raw_payload)

    -- The report before its verdict.
    unfoldable pub audit :
        Option (SessionRecord Uuid DateTime)
        → List (RawEventRow Uuid DateTime)
        → List (TradeRow Uuid DateTime)
        → List (LevelChangeRow Uuid DateTime)
        → (depth_events snapshots : ℕ) → VerifyReport Uuid DateTime
    audit session raw trades levels depth_events snapshots =
        let expected = expected_symbol session in
        record {
          session = session;
          raw_events = length raw;
          raw_parse_errors = count_if is_unparsed raw;
          trade_rows = length trades;
          level_change_rows = length levels;
          depth_events = depth_events;
          snapshots = snapshots;
          duplicate_trade_ids = repeated (seen_trade_ids trades []);
          duplicate_depth_identities = duplicates [] levels;
          marker_as_trade_ids = marker_ids trades;
          invalid_symbol_rows =
              count_if (foreign_trade expected) trades + count_if (foreign_level expected) levels;
          depth_sequence_anomalies = sequence_anomalies levels;
          verified = false;
        }

    unfoldable pub verify_session :
        Answers Uuid DateTime → Result (VerifyReport Uuid DateTime) String
    verify_session storage = storage.get_session >>= (λ session. storage.read_raw_events >>= (λ raw.
        storage.read_trades >>= (λ trades. storage.read_level_changes >>= (λ levels.
          storage.count_depth_events >>= (λ depth_events. storage.read_snapshots >>= (λ snapshots.
            let report = audit session raw trades levels depth_events (length snapshots) in
            ok (record report { verified = issues report == 0 })))))))
