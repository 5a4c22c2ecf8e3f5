-- ===== src/Book/Update.antt =====
-- `apply_depth_update` against the meaning of the update that it is given.
use futures_orderbook.Prelude.{ℕ, ◌≡◌, refl, List, true, ok, err, if_true, ap, ◌∙◌, arith}
use futures_orderbook.TreeMap.{get}
use futures_orderbook.Error.{AnyError}
use futures_orderbook.Level.Floats.{F64}
use futures_orderbook.Book.Defs.{OrderBook, Quote}
use futures_orderbook.Book.Apply.{
  each_level, write, update_sides, finish, update_done, Outcome, apply_depth_update,
}
use futures_orderbook.Book.Spec.{
  Put, put_all, last_written, decode, each_level-decode, get-write_all,
}
use futures_orderbook.Book.Valid.{IsValid}

-- Both sides of `c` read as those of `b` after the updates `us` and `vs`.
abbrev pub IsWritten : List (ℕ × ℕ) → List (ℕ × ℕ) → OrderBook → OrderBook → Type 0
IsWritten us vs b c =
    (p : ℕ)
    → (get p c.bids ≡ last_written p us (get p b.bids))
      × (get p c.asks ≡ last_written p vs (get p b.asks))

-- The two loops, in terms of what the texts decode to.
abbrev pub sides_written :
    Put → Outcome (List (ℕ × ℕ)) → Outcome (List (ℕ × ℕ)) → OrderBook → Outcome OrderBook
sides_written put (us, err e) (vs, last) b = (record b { bids = put_all put us b.bids }, err e)
sides_written put (us, ok u) (vs, last) b =
    (record b { bids = put_all put us b.bids; asks = put_all put vs b.asks }, last)

pub update_sides-decode :
    (fl : F64) (put : Put) (bids asks : List Quote) (b : OrderBook)
    → update_sides (each_level fl put) bids asks b
      ≡ sides_written put (decode fl bids) (decode fl asks) b
unfolding update_sides
update_sides-decode fl put bids asks b =
    ground (arith, each_level-decode fl put bids b.bids, each_level-decode fl put asks b.asks)

pub apply_depth_update-decode :
    (fl : F64) (bids asks : List Quote) (id : ℕ) (b : OrderBook)
    → b.initialized ≡ true
    → apply_depth_update fl bids asks id b
      ≡ finish (update_done id) (sides_written write (decode fl bids) (decode fl asks) b)
unfolding apply_depth_update
apply_depth_update-decode fl bids asks id b i =
    if_true _ _ i ∙ ap (finish (update_done id)) (update_sides-decode fl write bids asks b)

put_all-IsWritten :
    (us vs : List (ℕ × ℕ)) (b : OrderBook) (p : ℕ)
    → IsValid b
    → (get p (put_all write us b.bids) ≡ last_written p us (get p b.bids))
      × (get p (put_all write vs b.asks) ≡ last_written p vs (get p b.asks))
put_all-IsWritten us vs b p v =
    (get-write_all p us b.bids v.bids.ordered, get-write_all p vs b.asks v.asks.ordered)

module _ (fl : F64) (bids asks : List Quote) (us vs : List (ℕ × ℕ)) (id : ℕ) (b : OrderBook) where
  -- On a valid, initialised book an update that parses succeeds: it leaves at every price of either side
  -- the quantity that its last entry for that price asks for, where zero means no level, and every
  -- price that it does not name as it was; the book takes the update's id and stays initialised.
  pub apply_depth_update_refines :
      IsValid b
      → b.initialized ≡ true
      → decode fl bids ≡ (us, ok tt)
      → decode fl asks ≡ (vs, ok tt)
      → let (c, result) = apply_depth_update fl bids asks id b in
        (result ≡ ok tt) × IsWritten us vs b c × (c.last_update_id ≡ id) × (c.initialized ≡ true)
  apply_depth_update_refines v i du dv =
      rw (apply_depth_update-decode fl bids asks id b i, du, dv)
        (refl, (λ p. put_all-IsWritten us vs b p v), refl, i)

  -- An update is not atomic. On a valid, initialised book, when the bids parse and the asks do not,
  -- the method fails with the error of the asks and keeps the old id, but the bids are all written,
  -- and so are the asks before the bad text.
  pub apply_depth_update_half_applied :
      (e : AnyError)
      → IsValid b
      → b.initialized ≡ true
      → decode fl bids ≡ (us, ok tt)
      → decode fl asks ≡ (vs, err e)
      → let (c, result) = apply_depth_update fl bids asks id b in
        (result ≡ err e) × IsWritten us vs b c × (c.last_update_id ≡ b.last_update_id)
  apply_depth_update_half_applied e v i du dv =
      rw (apply_depth_update-decode fl bids asks id b i, du, dv)
        (refl, (λ p. put_all-IsWritten us vs b p v), refl)
