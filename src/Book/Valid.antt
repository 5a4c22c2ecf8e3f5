-- ===== src/Book/Valid.antt =====
-- The invariant of the order book, and that its operations keep it, failures included.
use futures_orderbook.Prelude.{
  ℕ, ◌<◌, List, [], ◌∷◌, Bool, if-elim, Result-cases, ok, err, inl, inr, All, arith,
}
use futures_orderbook.Prelude.Word.{u64_mod}
use futures_orderbook.TreeMap.{TreeMap, IsOrdered}
use futures_orderbook.TreeMap.Entries.{insert-All, remove-All}
use futures_orderbook.Level.{
  price_str_to_ticks, quantity_str_to_ticks, price_str_to_ticks-lt, quantity_str_to_ticks-lt,
}
use futures_orderbook.Level.Floats.{F64}
use futures_orderbook.Book.Defs.{OrderBook, Quote, new, clear, set_initialized}
use futures_orderbook.Book.Apply.{
  each_level, store, write, update_sides, finish, snapshot_done, update_done, Outcome,
  apply_snapshot, apply_depth_update,
}
use futures_orderbook.Book.Spec.{
  put_all, decode, each_level-decode, write_all-IsOrdered, store_all-IsOrdered,
}

-- A price and a quantity of 64 bits, the quantity not zero.
abbrev pub Fits : ℕ × ℕ → Type 0
Fits e = (e.0 < u64_mod) × (0 < e.1) × (e.1 < u64_mod)

abbrev InRange : ℕ × ℕ → Type 0
InRange e = (e.0 < u64_mod) × (e.1 < u64_mod)

-- One side of a book.
pub record IsSide (m : TreeMap ℕ) : Type 0 where
  pub ordered : IsOrdered m
  pub fits : All Fits m

pub record IsValid (b : OrderBook) : Type 0 where
  pub bids : IsSide b.bids
  pub asks : IsSide b.asks

nil-IsSide : IsSide []
nil-IsSide = record { ordered = tt; fits = tt }

write-All-Fits :
    (us : List (ℕ × ℕ)) (m : TreeMap ℕ)
    → All InRange us
    → All Fits m
    → All Fits (put_all write us m)
unfolding put_all
write-All-Fits [] m u h = h
write-All-Fits ((k, q) ∷ us) m u h =
    write-All-Fits us (write k q m) u.1
      (ground (arith, insert-All Fits k q m, remove-All Fits k m h))

store-All-Fits :
    (us : List (ℕ × ℕ)) (m : TreeMap ℕ)
    → All InRange us
    → All Fits m
    → All Fits (put_all store us m)
unfolding put_all
store-All-Fits [] m u h = h
store-All-Fits ((k, q) ∷ us) m u h =
    store-All-Fits us (store k q m) u.1 (ground (arith, insert-All Fits k q m))

module _ (fl : F64) where
  decode-InRange : (qs : List Quote) → All InRange (decode fl qs).0
  unfolding decode
  decode-InRange [] = tt
  decode-InRange ((ps, qs) ∷ rest) = elim (Result-cases (price_str_to_ticks fl ps)) [
    | inr (e, bad) ↦ rw (bad, decode) tt
    | inl (k, price) ↦ elim (Result-cases (quantity_str_to_ticks fl qs)) [
      | inr (e, bad) ↦ rw (price, bad, decode) tt
      | inl (q, qty) ↦
          rw (price, qty, decode)
            (
              (price_str_to_ticks-lt fl ps k price, quantity_str_to_ticks-lt fl qs q qty),
              decode-InRange rest,
            )
    ]
  ]

  write_levels-IsSide :
      (qs : List Quote) (m : TreeMap ℕ) → IsSide m → IsSide (each_level fl write qs m).0
  write_levels-IsSide qs m s = rw (each_level-decode fl write qs m) (record {
    ordered = write_all-IsOrdered (decode fl qs).0 m s.ordered;
    fits = write-All-Fits (decode fl qs).0 m (decode-InRange qs) s.fits;
  })

  store_levels-IsSide :
      (qs : List Quote) (m : TreeMap ℕ) → IsSide m → IsSide (each_level fl store qs m).0
  store_levels-IsSide qs m s = rw (each_level-decode fl store qs m) (record {
    ordered = store_all-IsOrdered (decode fl qs).0 m s.ordered;
    fits = store-All-Fits (decode fl qs).0 m (decode-InRange qs) s.fits;
  })

update_sides-IsValid :
    (loop : List Quote → TreeMap ℕ → Outcome (TreeMap ℕ))
    → ((qs : List Quote) (m : TreeMap ℕ) → IsSide m → IsSide (loop qs m).0)
    → (bids asks : List Quote) (b : OrderBook) → IsValid b
    → IsValid (update_sides loop bids asks b).0
unfolding update_sides
update_sides-IsValid loop keep bids asks b v =
    ground (arith, keep bids b.bids v.bids, keep asks b.asks v.asks)

finish-IsValid :
    (f : OrderBook → OrderBook)
    → ((b : OrderBook) → IsValid b → IsValid (f b))
    → (r : Outcome OrderBook) → IsValid r.0
    → IsValid (finish f r).0
finish-IsValid f keep (b, ok u) v = keep b v
finish-IsValid f keep (b, err e) v = v

module _ (fl : F64) where
  -- A snapshot leaves a valid book whatever the book was, also when a text in it does not parse.
  pub apply_snapshot-IsValid :
      (bids asks : List Quote) (id : ℕ) (b : OrderBook)
      → IsValid (apply_snapshot fl bids asks id b).0
  unfolding apply_snapshot
  apply_snapshot-IsValid bids asks id b =
      finish-IsValid (snapshot_done id) (λ c v. record { bids = v.bids; asks = v.asks }) _
        (update_sides-IsValid (each_level fl store) (store_levels-IsSide fl) bids asks _
          (record { bids = nil-IsSide; asks = nil-IsSide }))

  -- A depth update keeps the book valid, on every path.
  pub apply_depth_update-IsValid :
      (bids asks : List Quote) (id : ℕ) (b : OrderBook)
      → IsValid b
      → IsValid (apply_depth_update fl bids asks id b).0
  unfolding apply_depth_update
  apply_depth_update-IsValid bids asks id b v =
      if-elim (λ (r : Outcome OrderBook). IsValid r.0) b.initialized _ _
        (λ _.
          finish-IsValid (update_done id) (λ c w. record { bids = w.bids; asks = w.asks }) _
            (update_sides-IsValid (each_level fl write) (write_levels-IsSide fl) bids asks b v))
        (λ _. v)

-- An empty book is valid.
pub new-IsValid : IsValid new
unfolding new
new-IsValid = record { bids = nil-IsSide; asks = nil-IsSide }

clear-IsValid : (b : OrderBook) → IsValid (clear b)
unfolding clear
clear-IsValid b = record { bids = nil-IsSide; asks = nil-IsSide }

pub set_initialized-IsValid :
    (b : OrderBook) (val : Bool) → IsValid b → IsValid (set_initialized b val)
unfolding set_initialized
set_initialized-IsValid b val v = record { bids = v.bids; asks = v.asks }
