-- ===== src/Analytics/Clusters.antt =====
-- src/analytics/clusters.rs: clusters of nearby trades. The head of `closed` is the front of the
-- deque, and `current` is the field `open`. `delta` is an `i128`.
pub mod Volume
use futures_orderbook.Prelude.{
  ℕ, ◌+◌, ◌-◌, ◌*◌, ◌%◌, ◌^◌, min, max, List, [], ◌∷◌, ◌++◌, Bool, true, false, not, ◌&&◌, Option,
  none, some, ◌==◌, ltb, leb, if◌then◌else◌,
}
use futures_orderbook.Prelude.Word.{u64_mod, add64, add128, sub128}
use futures_orderbook.Level.Floats.{F64}
use futures_orderbook.Trades.Trade.{AggressorSide, buy, sell, TradeEvent}

pub record TradeCluster (Float : Type 0) : Type 0 where
  pub start_ms : ℕ
  pub end_ms : ℕ
  pub high : ℕ
  pub low : ℕ
  pub total_volume : ℕ
  pub buy_volume : ℕ
  pub sell_volume : ℕ
  pub delta : ℕ
  pub trade_count : ℕ
  pub largest_trade_quantity : ℕ
  pub dominant_side : AggressorSide
  pub aggressor_dominance : Float
  pub levels_crossed : ℕ
  pub monotonic : Bool
  pub first_price : ℕ
  pub last_price : ℕ

unfoldable pub duration_ms : {Float : Type 0} → TradeCluster Float → ℕ
duration_ms c = c.end_ms - c.start_ms

pub record ClusterTracker (Float : Type 0) : Type 0 where
  pub window_ms : ℕ
  pub price_range_ticks : ℕ
  pub current : Option (TradeCluster Float)
  pub closed : List (TradeCluster Float)
  pub retention_ms : ℕ

-- `AnalyticsConfig::cluster_price_range_raw`
unfoldable pub cluster_price_range_raw : (cluster_price_range_ticks tick_size_ticks : ℕ) → ℕ
cluster_price_range_raw range_ticks tick_size = min (range_ticks * tick_size) (u64_mod - 1)

-- The arguments are the fields of the configuration that the source reads.
unfoldable pub new :
    {Float : Type 0} (cluster_window_ms cluster_price_range_ticks tick_size_ticks retention_ms : ℕ)
    → ClusterTracker Float
new window_ms range_ticks tick_size retention_ms = record {
  window_ms = window_ms;
  price_range_ticks = cluster_price_range_raw range_ticks tick_size;
  current = none;
  closed = [];
  retention_ms = retention_ms;
}

abbrev pub abs_diff : ℕ → ℕ → ℕ
abs_diff a b = if leb a b then b - a else a - b

unfoldable pub fits : {Float : Type 0} → TradeEvent → ClusterTracker Float → Bool
fits trade t = elim t.current [
  | none ↦ false
  | some c ↦
      leb (trade.trade_time - c.end_ms) t.window_ms
      && leb (abs_diff trade.price_ticks c.last_price) t.price_range_ticks
]

-- The volume of one side, and the delta, after a trade.
abbrev pub add_buy : AggressorSide → ℕ → ℕ → ℕ
add_buy buy qty v = add64 v qty
add_buy sell qty v = v

abbrev pub add_sell : AggressorSide → ℕ → ℕ → ℕ
add_sell buy qty v = v
add_sell sell qty v = add64 v qty

abbrev pub add_delta : AggressorSide → ℕ → ℕ → ℕ
add_delta buy qty d = add128 d qty
add_delta sell qty d = sub128 d qty

abbrev pub dir_ok : AggressorSide → ℕ → ℕ → Bool
dir_ok buy price last = leb last price
dir_ok sell price last = leb price last

module _ (fl : F64) where
  open fl use {Float, of_u64, div}

  abbrev pub opened : TradeEvent → TradeCluster Float
  opened trade = record {
    start_ms = trade.trade_time;
    end_ms = trade.trade_time;
    high = trade.price_ticks;
    low = trade.price_ticks;
    total_volume = 0;
    buy_volume = 0;
    sell_volume = 0;
    delta = 0;
    trade_count = 0;
    largest_trade_quantity = 0;
    dominant_side = trade.aggressor;
    aggressor_dominance = of_u64 0;
    levels_crossed = 1;
    monotonic = true;
    first_price = trade.price_ticks;
    last_price = trade.price_ticks;
  }

  -- Dominance by volume.
  abbrev pub dominance : (bought sold total : ℕ) → Float
  dominance bought sold total =
      if ltb 0 total
      then div (of_u64 (if leb sold bought then bought else sold)) (of_u64 total)
      else of_u64 0

  unfoldable pub grow : TradeEvent → TradeCluster Float → TradeCluster Float
  grow trade c =
      let price = trade.price_ticks in
      let qty = trade.quantity_ticks in
      let bought = add_buy trade.aggressor qty c.buy_volume in
      let sold = add_sell trade.aggressor qty c.sell_volume in
      let moved = not (price == c.last_price) in
      record c {
        end_ms = trade.trade_time;
        high = max c.high price;
        low = min c.low price;
        total_volume = add64 c.total_volume qty;
        buy_volume = bought;
        sell_volume = sold;
        delta = add_delta trade.aggressor qty c.delta;
        trade_count = add64 c.trade_count 1;
        largest_trade_quantity = max c.largest_trade_quantity qty;
        dominant_side = if leb sold bought then buy else sell;
        aggressor_dominance = dominance bought sold (add64 c.total_volume qty);
        levels_crossed = if moved then (c.levels_crossed + 1) % 2 ^ 32 else c.levels_crossed;
        monotonic =
            if moved then c.monotonic && dir_ok c.dominant_side price c.last_price else c.monotonic;
        last_price = price;
      }

  -- `push_back` of the cluster that was open, if there was one.
  abbrev pub push_closed :
      Option (TradeCluster Float) → List (TradeCluster Float) → List (TradeCluster Float)
  push_closed none closed = closed
  push_closed (some c) closed = closed ++ c ∷ []

  abbrev pub grow_open : TradeEvent → Option (TradeCluster Float) → Option (TradeCluster Float)
  grow_open trade none = none
  grow_open trade (some c) = some (grow trade c)

  -- There is an open cluster where `grow_open` is called: it was tested by `fits`, or is new.
  unfoldable pub on_trade :
      TradeEvent → ClusterTracker Float → ClusterTracker Float × Option (TradeCluster Float)
  on_trade trade t =
      if fits trade t then (record t { current = grow_open trade t.current }, none) else (
        record t {
          current = grow_open trade (some (opened trade));
          closed = push_closed t.current t.closed;
        },
        t.current,
      )

  unfoldable pub close_open :
      ClusterTracker Float → ClusterTracker Float × Option (TradeCluster Float)
  close_open t = (record t { current = none; closed = push_closed t.current t.closed }, t.current)

  unfoldable pub drop_before : ℕ → List (TradeCluster Float) → List (TradeCluster Float)
  drop_before cutoff [] = []
  drop_before cutoff (front ∷ rest) =
      if ltb front.end_ms cutoff then drop_before cutoff rest else front ∷ rest

  unfoldable pub prune : ℕ → ClusterTracker Float → ClusterTracker Float
  prune now_ms t = record t { closed = drop_before (now_ms - t.retention_ms) t.closed }
