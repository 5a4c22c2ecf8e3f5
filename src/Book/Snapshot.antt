-- ===== src/Book/Snapshot.antt =====
-- `apply_snapshot` against the meaning of the snapshot that it is given.
use futures_orderbook.Prelude.{ℕ, ◌≡◌, refl, ap, List, [], none, true, ok, err}
use futures_orderbook.TreeMap.{get}
use futures_orderbook.Error.{AnyError}
use futures_orderbook.Level.Floats.{F64}
use futures_orderbook.Book.Defs.{OrderBook, Quote}
use futures_orderbook.Book.Apply.{store, finish, snapshot_done, Outcome, apply_snapshot}
use futures_orderbook.Book.Spec.{last_stored, decode, get-store_all}
use futures_orderbook.Book.Update.{sides_written, update_sides-decode}

-- Both sides read as the entries of the snapshot.
abbrev pub IsStored : List (ℕ × ℕ) → List (ℕ × ℕ) → OrderBook → Type 0
IsStored us vs c =
    (p : ℕ) → (get p c.bids ≡ last_stored p us none) × (get p c.asks ≡ last_stored p vs none)

abbrev emptied : OrderBook → OrderBook
emptied b = record b { bids = []; asks = [] }

apply_snapshot-decode :
    (fl : F64) (bids asks : List Quote) (id : ℕ) (b : OrderBook)
    → apply_snapshot fl bids asks id b
      ≡ finish
          (snapshot_done id)
          (sides_written store (decode fl bids) (decode fl asks) (emptied b))
unfolding apply_snapshot
apply_snapshot-decode fl bids asks id b =
    ap (finish (snapshot_done id)) (update_sides-decode fl store bids asks (emptied b))

-- A successful load does not depend on the book before it.
loaded_alike :
    (us vs : Outcome (List (ℕ × ℕ))) (id : ℕ) (b c : OrderBook)
    → (finish (snapshot_done id) (sides_written store us vs (emptied b))).1 ≡ ok tt
    → finish (snapshot_done id) (sides_written store us vs (emptied b))
      ≡ finish (snapshot_done id) (sides_written store us vs (emptied c))
loaded_alike (us, err e) (vs, last) id b c h = cc
loaded_alike (us, ok u) (vs, ok w) id b c h = refl
loaded_alike (us, ok u) (vs, err e) id b c h = cc

module _ (fl : F64) (bids asks : List Quote) (id : ℕ) (b : OrderBook) where
  -- A snapshot that parses replaces all state: every price reads as the last entry of the snapshot
  -- for it that is not zero, the id is the snapshot's, and the book is initialised.
  pub apply_snapshot_refines :
      (us vs : List (ℕ × ℕ))
      → decode fl bids ≡ (us, ok tt)
      → decode fl asks ≡ (vs, ok tt)
      → let (c, result) = apply_snapshot fl bids asks id b in
        (result ≡ ok tt) × IsStored us vs c × (c.last_update_id ≡ id) × (c.initialized ≡ true)
  unfolding get
  apply_snapshot_refines us vs du dv =
      rw (apply_snapshot-decode fl bids asks id b, du, dv)
        (refl, (λ p. (get-store_all p us [], get-store_all p vs [])), refl, refl)

  -- If a snapshot succeeds on one book, it does exactly the same on any other: what the book was
  -- before is forgotten.
  apply_snapshot_forgets :
      (c : OrderBook)
      → (apply_snapshot fl bids asks id b).1 ≡ ok tt
      → apply_snapshot fl bids asks id b ≡ apply_snapshot fl bids asks id c
  apply_snapshot_forgets c h =
      rw (apply_snapshot-decode fl bids asks id b, apply_snapshot-decode fl bids asks id c)
        (loaded_alike (decode fl bids) (decode fl asks) id b c
          (rw (apply_snapshot-decode fl bids asks id b) at h))

  -- When the bids of a snapshot do not parse, the method fails with their error after both sides
  -- were emptied: the bids are those before the bad text, there are no asks, and the book keeps its
  -- old id and stays initialised if it was.
  apply_snapshot_half_loaded :
      (us : List (ℕ × ℕ)) (e : AnyError)
      → decode fl bids ≡ (us, err e)
      → let (c, result) = apply_snapshot fl bids asks id b in
        (result ≡ err e)
        × IsStored us [] c
        × (c.last_update_id ≡ b.last_update_id)
        × (c.initialized ≡ b.initialized)
  unfolding last_stored get
  apply_snapshot_half_loaded us e du =
      rw (apply_snapshot-decode fl bids asks id b, du)
        (refl, (λ p. (get-store_all p us [], refl)), refl, refl)
