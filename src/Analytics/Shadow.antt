-- ===== src/Analytics/Shadow.antt =====
-- src/analytics/book.rs. Sums of `u64` wrap, and so does the sum of `u128` in the microprice.
use futures_orderbook.Prelude.{
  ℕ, String, ◌+◌, ◌*◌, ◌%◌, ◌^◌, List, [], ◌∷◌, ◌++◌, reverse, take, Bool, true, false, not, ◌||◌,
  Option, none, some, ◌==◌, ltb, leb, if◌then◌else◌,
}
use futures_orderbook.Prelude.Word.{add64, sub64, sub128}
use futures_orderbook.TreeMap.{TreeMap, get, insert, remove, first_key, last_key}
use futures_orderbook.Events.{Change}

-- The `?` operator on `Option`.
infixl 5 ◌>>=◌
abbrev ◌>>=◌ {ℓ κ} : {A : Type ℓ} {B : Type κ} → Option A → (A → Option B) → Option B
none >>= f = none
some a >>= f = f a

pub data BookSide : Type 0 where
  bid ask : BookSide

unfoldable pub as_str : BookSide → String
as_str bid = "BID"
as_str ask = "ASK"

pub record LevelChange : Type 0 where
  pub side : BookSide
  pub price : ℕ
  pub old_qty : Option ℕ
  pub new_qty : ℕ

pub record Microprice : Type 0 where
  pub num : ℕ
  pub den : ℕ

unfoldable pub new_microprice : ℕ → ℕ → Option Microprice
new_microprice num den = if den == 0 then none else some (record { num = num; den = den })

pub record ShadowBook : Type 0 where
  pub bids : TreeMap ℕ
  pub asks : TreeMap ℕ
  pub ready : Bool
  pub last_update_id : Option ℕ
  pub crossed_count : ℕ
  pub invalid_levels_rejected : ℕ

unfoldable pub new : ShadowBook
new = record {
  bids = [];
  asks = [];
  ready = false;
  last_update_id = none;
  crossed_count = 0;
  invalid_levels_rejected = 0;
}

-- A loop of `apply_snapshot`: the map, and the count of rejected levels.
unfoldable pub load : List (ℕ × ℕ) → TreeMap ℕ → ℕ → TreeMap ℕ × ℕ
load [] m rejected = (m, rejected)
load ((price, qty) ∷ levels) m rejected =
    if ltb 0 qty
    then load levels (insert price qty m) rejected
    else load levels m (add64 rejected 1)

unfoldable pub apply_snapshot : List (ℕ × ℕ) → List (ℕ × ℕ) → ℕ → ShadowBook → ShadowBook
apply_snapshot bids asks update_id b =
    let (new_bids, rejected) = load bids [] b.invalid_levels_rejected in
    let (new_asks, total) = load asks [] rejected in
    record b {
      bids = new_bids;
      asks = new_asks;
      invalid_levels_rejected = total;
      last_update_id = some update_id;
      ready = true;
    }

-- `old != Some(qty)`
abbrev pub differs : Option ℕ → ℕ → Bool
differs none qty = true
differs (some old) qty = not (old == qty)

abbrev pub put_level : ℕ → ℕ → TreeMap ℕ → TreeMap ℕ
put_level price qty m = if qty == 0 then remove price m else insert price qty m

-- A loop of `apply_update`: the map, and the changes that it pushes.
unfoldable pub update_levels : BookSide → List Change → TreeMap ℕ → TreeMap ℕ × List LevelChange
update_levels side [] m = (m, [])
update_levels side (c ∷ changes) m =
    let old = get c.price m in
    let (end, out) = update_levels side changes (put_level c.price c.new_qty m) in
    let change : LevelChange = record {
      side = side;
      price = c.price;
      old_qty = old;
      new_qty = c.new_qty;
    } in
    (end, if differs old c.new_qty then change ∷ out else out)

unfoldable pub apply_update :
    List Change → List Change → ℕ → ShadowBook → ShadowBook × List LevelChange
apply_update bid_changes ask_changes update_id b =
    let (new_bids, from_bids) = update_levels bid bid_changes b.bids in
    let (new_asks, from_asks) = update_levels ask ask_changes b.asks in
    (
      record b { bids = new_bids; asks = new_asks; last_update_id = some update_id },
      from_bids ++ from_asks,
    )

unfoldable pub best_bid : ShadowBook → Option ℕ
best_bid b = last_key b.bids

unfoldable pub best_ask : ShadowBook → Option ℕ
best_ask b = first_key b.asks

abbrev pub at_or_above : Option ℕ → Option ℕ → Bool
at_or_above (some b) (some a) = leb a b
at_or_above none _ = false
at_or_above (some b) none = false

unfoldable pub is_crossed : ShadowBook → Bool
is_crossed b = at_or_above (best_bid b) (best_ask b)

unfoldable pub spread_ticks : ShadowBook → Option ℕ
spread_ticks b =
    if is_crossed b
    then none
    else do bid_price ← best_bid b; ask_price ← best_ask b; some (sub64 ask_price bid_price)

abbrev pub sum_quantities : TreeMap ℕ → ℕ
sum_quantities [] = 0
sum_quantities ((price, qty) ∷ m) = add64 qty (sum_quantities m)

unfoldable pub depth_volume : ℕ → ShadowBook → ℕ × ℕ
depth_volume depth b =
    (sum_quantities (take depth (reverse b.bids)), sum_quantities (take depth b.asks))

-- `num` and `den` of `microprice`
abbrev pub weigh : ℕ → ℕ → ℕ → ℕ → Option Microprice
weigh bid_price ask_price bid_qty ask_qty =
    new_microprice ((ask_price * bid_qty + bid_price * ask_qty) % 2 ^ 128) (bid_qty + ask_qty)

unfoldable pub microprice : ShadowBook → Option Microprice
microprice b = if not b.ready || is_crossed b then none else do
  bid_price ← best_bid b
  ask_price ← best_ask b
  bid_qty ← get bid_price b.bids
  ask_qty ← get ask_price b.asks
  weigh bid_price ask_price bid_qty ask_qty

abbrev pub unwrap_or_zero : Option ℕ → ℕ
unwrap_or_zero none = 0
unwrap_or_zero (some q) = q

unfoldable pub quantity_at : BookSide → ℕ → ShadowBook → ℕ
quantity_at bid price b = unwrap_or_zero (get price b.bids)
quantity_at ask price b = unwrap_or_zero (get price b.asks)

-- `delta_ticks` is an `i128`.
unfoldable pub delta_ticks : LevelChange → ℕ
delta_ticks c = sub128 c.new_qty (unwrap_or_zero c.old_qty)

unfoldable pub bid_levels_top : ℕ → ShadowBook → List (ℕ × ℕ)
bid_levels_top n b = take n (reverse b.bids)

unfoldable pub ask_levels_top : ℕ → ShadowBook → List (ℕ × ℕ)
ask_levels_top n b = take n b.asks

unfoldable pub set_ready : Bool → ShadowBook → ShadowBook
set_ready ready b =
    if ready then record b { ready = true } else record b { ready = false; bids = []; asks = [] }

unfoldable pub record_crossed : ShadowBook → ShadowBook × ℕ
record_crossed b =
    let count = add64 b.crossed_count 1 in (record b { crossed_count = count }, count)
