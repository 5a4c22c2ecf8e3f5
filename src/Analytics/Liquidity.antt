-- ===== src/Analytics/Liquidity.antt =====
-- src/analytics/liquidity.rs: displayed liquidity that is added and removed, and candidates of a
-- replenishment. The map over a side and a price is a map over prices for each side, and the head of
-- a list of decreases is the front of the deque.
pub mod Account
use futures_orderbook.Prelude.{
  ℕ, ◌+◌, ◌-◌, String, List, [], ◌∷◌, ◌++◌, map, Bool, true, false, ◌&&◌, Option, none, some, ◌==◌,
  ltb, leb, if◌then◌else◌,
}
use futures_orderbook.Prelude.Word.{add64}
use futures_orderbook.TreeMap.{TreeMap, get, insert, remove}
use futures_orderbook.Analytics.Shadow
use futures_orderbook.Analytics.Shadow.{BookSide, bid, ask, LevelChange, unwrap_or_zero}
use futures_orderbook.Analytics.Derived
use futures_orderbook.Analytics.Derived.{
  AnalyticsEvent, AnalyticsEventKind, liquidity_added, liquidity_removed, liquidity_increased,
  liquidity_decreased, liquidity_replenishment, with_side, with_price, with_quantity,
}

pub data LiquidityChangeKind : Type 0 where
  added removed increased decreased unchanged : LiquidityChangeKind

unfoldable pub classify : Option ℕ → ℕ → LiquidityChangeKind
classify none n = if n == 0 then unchanged else added
classify (some o) n =
    if o == n
    then unchanged
    else if n == 0
    then removed
    else if ltb o n
    then increased
    else decreased

unfoldable pub as_str : LiquidityChangeKind → String
as_str added = "added"
as_str removed = "removed"
as_str increased = "increased"
as_str decreased = "decreased"
as_str unchanged = "unchanged"

pub record LevelPersistence : Type 0 where
  pub side : BookSide
  pub price : ℕ
  pub created_at : ℕ
  pub last_seen_at : ℕ
  pub peak_quantity : ℕ
  pub current_quantity : ℕ

-- `BTreeMap<(BookSide, PriceTick), V>`
pub record SideMap (V : Type 0) : Type 0 where
  pub bids : TreeMap V
  pub asks : TreeMap V

abbrev pub of_side : {V : Type 0} → BookSide → SideMap V → TreeMap V
of_side bid m = m.bids
of_side ask m = m.asks

abbrev pub set_side : {V : Type 0} → BookSide → TreeMap V → SideMap V → SideMap V
set_side bid n m = record m { bids = n }
set_side ask n m = record m { asks = n }

-- The last two fields are those of the configuration that the source reads.
pub record LiquidityTracker : Type 0 where
  pub added_ticks : ℕ
  pub removed_ticks : ℕ
  pub levels : SideMap LevelPersistence
  pub recent_decreases : SideMap (List (ℕ × ℕ))
  pub replenishment_count : ℕ
  pub replenishment_window_ms : ℕ
  pub retention_ms : ℕ

unfoldable pub new : (replenishment_window_ms retention_ms : ℕ) → LiquidityTracker
new window retention = record {
  added_ticks = 0;
  removed_ticks = 0;
  levels = record { bids = []; asks = [] };
  recent_decreases = record { bids = []; asks = [] };
  replenishment_count = 0;
  replenishment_window_ms = window;
  retention_ms = retention;
}

unfoldable pub reset_interval : LiquidityTracker → LiquidityTracker
reset_interval t = record t { added_ticks = 0; removed_ticks = 0 }

unfoldable pub clear : LiquidityTracker → LiquidityTracker
clear t = record t {
  levels = record { bids = []; asks = [] };
  recent_decreases = record { bids = []; asks = [] };
  added_ticks = 0;
  removed_ticks = 0;
}

abbrev pub event_of : AnalyticsEventKind → LevelChange → (ts quantity : ℕ) → AnalyticsEvent
event_of kind c ts quantity =
    with_quantity quantity
      (with_price c.price (with_side (Shadow.as_str c.side) (Derived.new kind ts "BTCUSDT")))

-- `entry(key).or_default().push_back(..)`
abbrev pub push_back : Option (List (ℕ × ℕ)) → ℕ × ℕ → List (ℕ × ℕ)
push_back none d = d ∷ []
push_back (some ds) d = ds ++ d ∷ []

abbrev pub note_decrease : LevelChange → ℕ → LiquidityTracker → LiquidityTracker
note_decrease c ts t =
    let ds = of_side c.side t.recent_decreases in
    record t {
      recent_decreases =
          set_side c.side (insert c.price (push_back (get c.price ds) (ts, c.new_qty)) ds)
            t.recent_decreases;
    }

-- The arms of the match but the first, which returns.
abbrev pub count_change :
    LiquidityChangeKind
    → LevelChange
    → ℕ
    → LiquidityTracker
    → LiquidityTracker × List AnalyticsEvent
count_change unchanged c ts t = (t, [])
count_change added c ts t = (
  record t { added_ticks = add64 t.added_ticks c.new_qty },
  event_of liquidity_added c ts c.new_qty ∷ [],
)
count_change removed c ts t =
    let gone = unwrap_or_zero c.old_qty in
    (
      record t { removed_ticks = add64 t.removed_ticks gone },
      event_of liquidity_removed c ts gone ∷ [],
    )
count_change increased c ts t =
    let more = c.new_qty - unwrap_or_zero c.old_qty in
    (
      record t { added_ticks = add64 t.added_ticks more },
      event_of liquidity_increased c ts more ∷ [],
    )
count_change decreased c ts t =
    let gone = unwrap_or_zero c.old_qty - c.new_qty in
    (
      note_decrease c ts (record t { removed_ticks = add64 t.removed_ticks gone }),
      event_of liquidity_decreased c ts gone ∷ [],
    )

-- The loop for the first decrease in the window, and its removal.
abbrev pub consume : (ts window : ℕ) → List (ℕ × ℕ) → Option (List (ℕ × ℕ))
consume ts window [] = none
consume ts window ((dts, qty) ∷ ds) =
    if leb ts (add64 dts window)
    then some ds
    else elim (consume ts window ds) [ none ↦ none | some rest ↦ some ((dts, qty) ∷ rest) ]

abbrev pub replenished :
    LevelChange
    → ℕ
    → Option (List (ℕ × ℕ))
    → LiquidityTracker
    → LiquidityTracker × List AnalyticsEvent
replenished c ts none t = (t, [])
replenished c ts (some rest) t = (
  record t {
    recent_decreases =
        set_side c.side (insert c.price rest (of_side c.side t.recent_decreases))
          t.recent_decreases;
    replenishment_count = add64 t.replenishment_count 1;
  },
  event_of liquidity_replenishment c ts c.new_qty ∷ [],
)

abbrev pub consumed : ℕ → ℕ → Option (List (ℕ × ℕ)) → Option (List (ℕ × ℕ))
consumed ts window none = none
consumed ts window (some ds) = consume ts window ds

unfoldable pub replenish :
    LevelChange → ℕ → LiquidityTracker → LiquidityTracker × List AnalyticsEvent
replenish c ts t =
    if ltb (unwrap_or_zero c.old_qty) c.new_qty
    then replenished c ts
        (consumed ts t.replenishment_window_ms (get c.price (of_side c.side t.recent_decreases))) t
    else (t, [])

abbrev pub persisted : LevelChange → ℕ → Option LevelPersistence → LevelPersistence
persisted c ts (some rec) = record rec {
  last_seen_at = ts;
  current_quantity = c.new_qty;
  peak_quantity = if ltb rec.peak_quantity c.new_qty then c.new_qty else rec.peak_quantity;
}
persisted c ts none = record {
  side = c.side;
  price = c.price;
  created_at = ts;
  last_seen_at = ts;
  peak_quantity = c.new_qty;
  current_quantity = c.new_qty;
}

abbrev pub persist : BookSide → LevelChange → ℕ → LiquidityTracker → LiquidityTracker
persist side c ts t =
    let levels = of_side side t.levels in
    record t {
      levels = set_side side (insert c.price (persisted c ts (get c.price levels)) levels) t.levels;
    }

abbrev pub on_changed :
    LiquidityChangeKind
    → LevelChange
    → ℕ
    → LiquidityTracker
    → LiquidityTracker × List AnalyticsEvent
on_changed unchanged c ts t = (t, [])
on_changed kind c ts t =
    let (counted, out) = count_change kind c ts t in
    let (filled, more) = replenish c ts counted in (persist c.side c ts filled, out ++ more)

unfoldable pub on_level_change :
    LevelChange → ℕ → LiquidityTracker → LiquidityTracker × List AnalyticsEvent
on_level_change c ts t = on_changed (classify c.old_qty c.new_qty) c ts t

abbrev is_stale : ℕ → LevelPersistence → Bool
is_stale cutoff rec = ltb rec.last_seen_at cutoff && rec.current_quantity == 0

unfoldable pub stale_prices : ℕ → TreeMap LevelPersistence → List ℕ
stale_prices cutoff [] = []
stale_prices cutoff ((price, rec) ∷ m) =
    let rest = stale_prices cutoff m in if is_stale cutoff rec then price ∷ rest else rest

abbrev pub remove_each : {V : Type 0} → List ℕ → TreeMap V → TreeMap V
remove_each [] m = m
remove_each (price ∷ prices) m = remove_each prices (remove price m)

abbrev trim : (window now_ms : ℕ) → List (ℕ × ℕ) → List (ℕ × ℕ)
trim window now_ms [] = []
trim window now_ms ((dts, qty) ∷ ds) =
    if ltb (add64 dts window) now_ms then trim window now_ms ds else (dts, qty) ∷ ds

abbrev trim_each : (window now_ms : ℕ) → TreeMap (List (ℕ × ℕ)) → TreeMap (List (ℕ × ℕ))
trim_each window now_ms = map (λ e. (e.0, trim window now_ms e.1))

unfoldable pub prune : ℕ → LiquidityTracker → LiquidityTracker
prune now_ms t =
    let cutoff = now_ms - t.retention_ms in
    let bids = stale_prices cutoff t.levels.bids in
    let asks = stale_prices cutoff t.levels.asks in
    let window = t.replenishment_window_ms in
    record t {
      levels = record {
        bids = remove_each bids t.levels.bids;
        asks = remove_each asks t.levels.asks;
      };
      recent_decreases = record {
        bids = trim_each window now_ms (remove_each bids t.recent_decreases.bids);
        asks = trim_each window now_ms (remove_each asks t.recent_decreases.asks);
      };
    }
