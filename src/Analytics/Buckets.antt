-- ===== src/Analytics/Buckets.antt =====
-- The time buckets of src/analytics/flow.rs, and the map that holds the open ones.
use futures_orderbook.Prelude.{
  ℕ, List, [], ◌∷◌, Bool, ◌&&◌, ◌||◌, Option, none, some, ◌==◌, ltb, if◌then◌else◌,
}
use futures_orderbook.Prelude.Word.{add64}
use futures_orderbook.Trades.Trade.{TradeEvent}
use futures_orderbook.Analytics.Clusters.{add_buy, add_sell, add_delta}

pub record TimeBucket : Type 0 where
  pub interval_ms : ℕ
  pub start_ms : ℕ
  pub end_ms : ℕ
  pub buy_volume : ℕ
  pub sell_volume : ℕ
  pub total_volume : ℕ
  pub delta : ℕ
  pub trade_count : ℕ
  pub cvd_end : ℕ

unfoldable pub empty : ℕ → ℕ → TimeBucket
empty interval_ms start_ms = record {
  interval_ms = interval_ms;
  start_ms = start_ms;
  end_ms = add64 start_ms interval_ms;
  buy_volume = 0;
  sell_volume = 0;
  total_volume = 0;
  delta = 0;
  trade_count = 0;
  cvd_end = 0;
}

-- `BTreeMap<(u64, u64), TimeBucket>`: a list in the order of its keys.
abbrev pub Buckets : Type 0
Buckets = List ((ℕ × ℕ) × TimeBucket)

abbrev pub same_key : ℕ × ℕ → ℕ × ℕ → Bool
same_key (a, b) (c, d) = a == c && b == d

abbrev pub key_below : ℕ × ℕ → ℕ × ℕ → Bool
key_below (a, b) (c, d) = ltb a c || (a == c && ltb b d)

abbrev pub get_bucket : ℕ × ℕ → Buckets → Option TimeBucket
get_bucket key [] = none
get_bucket key ((k, b) ∷ m) = if same_key k key then some b else get_bucket key m

abbrev pub put_bucket : ℕ × ℕ → TimeBucket → Buckets → Buckets
put_bucket key bucket [] = (key, bucket) ∷ []
put_bucket key bucket ((k, b) ∷ m) =
    let rest = put_bucket key bucket m in
    if key_below key k
    then (key, bucket) ∷ (k, b) ∷ m
    else if same_key k key
    then (key, bucket) ∷ m
    else (k, b) ∷ rest

abbrev pub remove_bucket : ℕ × ℕ → Buckets → Buckets
remove_bucket key [] = []
remove_bucket key ((k, b) ∷ m) =
    let rest = remove_bucket key m in if same_key k key then m else (k, b) ∷ rest

-- `range((interval, u64::MIN)..(interval, start)).next_back()`: the start of the last bucket of the
-- interval before `start`, or `last` if there is none.
abbrev pub last_before : ℕ → ℕ → Option ℕ → Buckets → Option ℕ
last_before interval start last [] = last
last_before interval start last (((i, s), b) ∷ m) =
    if i == interval && ltb s start
    then last_before interval start (some s) m
    else last_before interval start last m

abbrev pub add_bucket : TradeEvent → TimeBucket → TimeBucket
add_bucket trade b =
    let qty = trade.quantity_ticks in
    record b {
      total_volume = add64 b.total_volume qty;
      trade_count = add64 b.trade_count 1;
      buy_volume = add_buy trade.aggressor qty b.buy_volume;
      sell_volume = add_sell trade.aggressor qty b.sell_volume;
      delta = add_delta trade.aggressor qty b.delta;
    }

abbrev pub bucket_or_empty : ℕ → ℕ → Option TimeBucket → TimeBucket
bucket_or_empty interval start_ms none = empty interval start_ms
bucket_or_empty interval start_ms (some b) = b

abbrev pub drop_before : ℕ → List TimeBucket → List TimeBucket
drop_before cutoff [] = []
drop_before cutoff (front ∷ rest) =
    if ltb front.end_ms cutoff then drop_before cutoff rest else front ∷ rest

-- `sort_by_key`, which is stable.
abbrev pub insert_sorted : TimeBucket → List TimeBucket → List TimeBucket
insert_sorted b [] = b ∷ []
insert_sorted b (c ∷ cs) =
    let rest = insert_sorted b cs in
    if key_below (c.interval_ms, c.start_ms) (b.interval_ms, b.start_ms)
    then c ∷ rest
    else b ∷ c ∷ cs

abbrev pub sort_buckets : List TimeBucket → List TimeBucket
sort_buckets [] = []
sort_buckets (b ∷ bs) = insert_sorted b (sort_buckets bs)
