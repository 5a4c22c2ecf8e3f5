-- ===== src/Book/View.antt =====
-- The reads of the order book: mid price, spread, level lists, the snapshot and the self-check.
use futures_orderbook.Prelude.{
  ℕ, List, [], ◌∷◌, map, reverse, take, Option, none, some, ◌==◌, leb, if◌then◌else◌, Result, ok,
  err,
}
use futures_orderbook.Prelude.Word.{add64, sub64}
use futures_orderbook.TreeMap.{TreeMap}
use futures_orderbook.Error.{AnyError, zero_quantity_bid, zero_quantity_ask, crossed}
use futures_orderbook.Level.{PriceLevel, tick_scale}
use futures_orderbook.Level.Floats.{F64}
use futures_orderbook.Book.Defs.{OrderBook, best_bid, best_ask}

-- `let bid = self.best_bid()?; let ask = self.best_ask()?; Some(f(bid, ask))`
abbrev pub with_best {ℓ} : {A : Type ℓ} → OrderBook → (ℕ → ℕ → A) → Option A
with_best b f = elim (best_bid b) [
  | none ↦ none
  | some bid ↦ elim (best_ask b) [ none ↦ none | some ask ↦ some (f bid ask) ]
]

-- The subtraction of two `u64`, which wraps in a release build.
unfoldable pub spread : OrderBook → Option ℕ
spread b = with_best b (λ bid ask. sub64 ask bid)

abbrev pub level : ℕ × ℕ → PriceLevel
level e = record { price = e.0; quantity = e.1 }

unfoldable pub bid_levels : OrderBook → ℕ → List PriceLevel
bid_levels b n = map level (take n (reverse b.bids))

unfoldable pub ask_levels : OrderBook → ℕ → List PriceLevel
ask_levels b n = map level (take n b.asks)

pub record OrderBookSnapshot (Float : Type 0) : Type 0 where
  pub bids : List PriceLevel
  pub asks : List PriceLevel
  pub last_update_id : ℕ
  pub mid_price : Option Float
  pub best_bid : Option ℕ
  pub best_ask : Option ℕ

module _ (fl : F64) where
  open fl use {Float, of_u64, div}

  unfoldable pub mid_price : OrderBook → Option Float
  mid_price b =
      with_best b (λ bid ask. div (div (of_u64 (add64 bid ask)) (of_u64 2)) (of_u64 tick_scale))

  unfoldable pub snapshot : OrderBook → OrderBookSnapshot Float
  snapshot b = record {
    bids = map level (reverse b.bids);
    asks = map level b.asks;
    last_update_id = b.last_update_id;
    mid_price = mid_price b;
    best_bid = best_bid b;
    best_ask = best_ask b;
  }

-- The price of the first level with no quantity, in the order of the map.
unfoldable pub first_zero : TreeMap ℕ → Option ℕ
first_zero [] = none
first_zero ((price, qty) ∷ m) = if qty == 0 then some price else first_zero m

abbrev pub check_crossed : Option ℕ → Option ℕ → Result (Unit {0}) AnyError
check_crossed none _ = ok tt
check_crossed (some bid) none = ok tt
check_crossed (some bid) (some ask) = if leb ask bid then err (crossed bid ask) else ok tt

unfoldable pub verify_invariants : OrderBook → Result (Unit {0}) AnyError
verify_invariants b = elim (first_zero b.bids) [
  | some price ↦ err (zero_quantity_bid price)
  | none ↦ elim (first_zero b.asks) [
    | some price ↦ err (zero_quantity_ask price)
    | none ↦ check_crossed (best_bid b) (best_ask b)
  ]
]
