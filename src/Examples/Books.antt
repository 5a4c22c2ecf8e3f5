-- ===== src/Examples/Books.antt =====
-- The order book at a concrete update and a concrete snapshot.
use futures_orderbook.Prelude.{ℕ, ◌≡◌, refl, ◌↔◌, List, [], ◌∷◌, some, ok, err, true}
use futures_orderbook.TreeMap.{last_key, first_key}
use futures_orderbook.Error.{parse_float}
use futures_orderbook.Level.{price_str_to_ticks, quantity_str_to_ticks}
use futures_orderbook.Level.Whole.{whole}
use futures_orderbook.Book.Defs.{best_bid, best_ask}
use futures_orderbook.Book.Apply.{apply_snapshot, apply_depth_update}
use futures_orderbook.Book.Spec.{decode}
use futures_orderbook.Book.View.{verify_invariants, first_zero}
use futures_orderbook.Book.Valid.{IsValid, apply_depth_update-IsValid}
use futures_orderbook.Book.Update.{
  IsWritten, apply_depth_update_refines, apply_depth_update_half_applied,
}
use futures_orderbook.Book.Snapshot.{IsStored, apply_snapshot_refines}
use futures_orderbook.Book.Best.{IsUncrossed, verify_invariants_iff}
use futures_orderbook.Examples.Data.{book, book-IsValid, quotes, ask_quotes, bad_quotes}

abbrev bids_ticks : List (ℕ × ℕ)
bids_ticks = (500_000_000, 0) ∷ (600_000_000, 100_000_000) ∷ []

abbrev asks_ticks : List (ℕ × ℕ)
asks_ticks = (700_000_000, 400_000_000) ∷ []

abbrev bad_ticks : List (ℕ × ℕ)
bad_ticks = (800_000_000, 100_000_000) ∷ []

decode_bids : decode whole quotes ≡ (bids_ticks, ok tt)
unfolding decode price_str_to_ticks quantity_str_to_ticks
decode_bids = refl

decode_asks : decode whole ask_quotes ≡ (asks_ticks, ok tt)
unfolding decode price_str_to_ticks quantity_str_to_ticks
decode_asks = refl

decode_bad : decode whole bad_quotes ≡ (bad_ticks, err parse_float)
unfolding decode price_str_to_ticks quantity_str_to_ticks
decode_bad = refl

apply_depth_update_refines_example :
    let (c, result) = apply_depth_update whole quotes ask_quotes 20 book in
    (result ≡ ok tt)
    × IsWritten bids_ticks asks_ticks book c
    × (c.last_update_id ≡ 20)
    × (c.initialized ≡ true)
apply_depth_update_refines_example =
    apply_depth_update_refines whole quotes ask_quotes bids_ticks asks_ticks 20 book book-IsValid
      refl decode_bids decode_asks

apply_depth_update_half_applied_example :
    let (c, result) = apply_depth_update whole quotes bad_quotes 20 book in
    (result ≡ err parse_float) × IsWritten bids_ticks bad_ticks book c × (c.last_update_id ≡ 10)
apply_depth_update_half_applied_example =
    apply_depth_update_half_applied whole quotes bad_quotes bids_ticks bad_ticks 20 book parse_float
      book-IsValid refl decode_bids decode_bad

apply_snapshot_refines_example :
    let (c, result) = apply_snapshot whole quotes ask_quotes 20 book in
    (result ≡ ok tt)
    × IsStored bids_ticks asks_ticks c
    × (c.last_update_id ≡ 20)
    × (c.initialized ≡ true)
apply_snapshot_refines_example =
    apply_snapshot_refines whole quotes ask_quotes 20 book bids_ticks asks_ticks decode_bids
      decode_asks

apply_depth_update-IsValid_example : IsValid (apply_depth_update whole quotes bad_quotes 20 book).0
apply_depth_update-IsValid_example =
    apply_depth_update-IsValid whole quotes bad_quotes 20 book book-IsValid

book-best_ask : best_ask book ≡ some 700_000_000
unfolding best_ask first_key
book-best_ask = refl

verify_invariants_iff_example : (verify_invariants book ≡ ok tt) ↔ IsUncrossed book
verify_invariants_iff_example = verify_invariants_iff book book-IsValid

book_verified : verify_invariants book ≡ ok tt
unfolding verify_invariants first_zero best_bid best_ask last_key first_key
book_verified = refl
