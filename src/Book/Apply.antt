-- ===== src/Book/Apply.antt =====
-- `apply_snapshot` and `apply_depth_update`. Each loop stops at the first text that does not parse
-- and leaves the levels before it in the map, since `?` returns from the method on the spot.
use futures_orderbook.Prelude.{ℕ, List, [], ◌∷◌, true, ◌==◌, ltb, if◌then◌else◌, Result, ok, err}
use futures_orderbook.TreeMap.{TreeMap, insert, remove}
use futures_orderbook.Error.{AnyError, order_book, snapshot_required}
use futures_orderbook.Level.{price_str_to_ticks, quantity_str_to_ticks}
use futures_orderbook.Level.Floats.{F64}
use futures_orderbook.Book.Defs.{OrderBook, Quote}

-- What a method with `&mut self` leaves behind: the new state, and its `Result<()>`.
abbrev pub Outcome : Type 0 → Type 0
Outcome S = S × Result (Unit {0}) AnyError

-- The tail of a method that runs only if no `?` returned before it.
abbrev pub finish : (OrderBook → OrderBook) → Outcome OrderBook → Outcome OrderBook
finish f (b, ok u) = (f b, ok u)
finish f (b, err e) = (b, err e)

-- The bids loop, then the asks loop.
unfoldable pub update_sides :
    (List Quote → TreeMap ℕ → Outcome (TreeMap ℕ))
    → List Quote
    → List Quote
    → OrderBook
    → Outcome OrderBook
update_sides loop bids asks b =
    let (new_bids, done) = loop bids b.bids in
    elim done [
      | err e ↦ (record b { bids = new_bids }, err e)
      | ok _ ↦
          let (new_asks, last) = loop asks b.asks in
          (record b { bids = new_bids; asks = new_asks }, last)
    ]

-- `if qty > 0 { insert }`
abbrev pub store : ℕ → ℕ → TreeMap ℕ → TreeMap ℕ
store price qty m = if ltb 0 qty then insert price qty m else m

-- `if qty == 0 { remove } else { insert }`
abbrev pub write : ℕ → ℕ → TreeMap ℕ → TreeMap ℕ
write price qty m = if qty == 0 then remove price m else insert price qty m

abbrev pub snapshot_done : ℕ → OrderBook → OrderBook
snapshot_done id b = record b { last_update_id = id; initialized = true }

abbrev pub update_done : ℕ → OrderBook → OrderBook
update_done id b = record b { last_update_id = id }

module _ (fl : F64) where
  -- A loop of `apply_snapshot` or of `apply_depth_update`, by what it does with a level.
  unfoldable pub each_level :
      (ℕ → ℕ → TreeMap ℕ → TreeMap ℕ) → List Quote → TreeMap ℕ → Outcome (TreeMap ℕ)
  each_level put [] m = (m, ok tt)
  each_level put ((price_str, qty_str) ∷ rest) m = elim (price_str_to_ticks fl price_str) [
    | err e ↦ (m, err e)
    | ok price ↦ elim (quantity_str_to_ticks fl qty_str) [
      | err e ↦ (m, err e)
      | ok qty ↦ each_level put rest (put price qty m)
    ]
  ]

  unfoldable pub apply_snapshot : List Quote → List Quote → ℕ → OrderBook → Outcome OrderBook
  apply_snapshot bids asks last_update_id b =
      finish (snapshot_done last_update_id)
        (update_sides (each_level store) bids asks (record b { bids = []; asks = [] }))

  unfoldable pub apply_depth_update : List Quote → List Quote → ℕ → OrderBook → Outcome OrderBook
  apply_depth_update bids asks update_id b =
      if b.initialized
      then finish (update_done update_id) (update_sides (each_level write) bids asks b)
      else (b, err (order_book snapshot_required))
