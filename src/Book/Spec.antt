-- ===== src/Book/Spec.antt =====
-- What a list of level updates means: the pairs it decodes to, and the quantity it leaves at a
-- price. The loops of the order book are compared with these.
use futures_orderbook.Prelude.{
  ℕ, List, [], ◌∷◌, Option, none, some, ◌==◌, if◌then◌else◌, Result-cases, ok, err, ◌≡◌, refl,
  arith, inl, inr,
}
use futures_orderbook.TreeMap.{TreeMap, get, IsOrdered}
use futures_orderbook.TreeMap.Laws.{get-insert, get-remove, insert-Ascends, remove-Ascends}
use futures_orderbook.Level.{price_str_to_ticks, quantity_str_to_ticks}
use futures_orderbook.Level.Floats.{F64}
use futures_orderbook.Book.Defs.{Quote}
use futures_orderbook.Book.Apply.{each_level, store, write, Outcome}

abbrev pub Put : Type 0
Put = ℕ → ℕ → TreeMap ℕ → TreeMap ℕ

unfoldable pub put_all : Put → List (ℕ × ℕ) → TreeMap ℕ → TreeMap ℕ
put_all put [] m = m
put_all put ((price, qty) ∷ us) m = put_all put us (put price qty m)

-- The quantity at `p` once the updates are through, where a zero removes the level.
unfoldable pub last_written : ℕ → List (ℕ × ℕ) → Option ℕ → Option ℕ
last_written p [] old = old
last_written p ((price, qty) ∷ us) old =
    last_written p us (if price == p then (if qty == 0 then none else some qty) else old)

-- The same for a snapshot, where a zero is passed over.
unfoldable pub last_stored : ℕ → List (ℕ × ℕ) → Option ℕ → Option ℕ
last_stored p [] old = old
last_stored p ((price, qty) ∷ us) old =
    last_stored p us (if price == p then (if qty == 0 then old else some qty) else old)

pub write-IsOrdered : (k q : ℕ) (m : TreeMap ℕ) → IsOrdered m → IsOrdered (write k q m)
write-IsOrdered k q m s = ground (arith, insert-Ascends k q m 0, remove-Ascends k m 0)

store-IsOrdered : (k q : ℕ) (m : TreeMap ℕ) → IsOrdered m → IsOrdered (store k q m)
store-IsOrdered k q m s = ground (arith, insert-Ascends k q m 0)

pub get-write :
    (p k q : ℕ) (m : TreeMap ℕ)
    → IsOrdered m
    → get p (write k q m) ≡ (if k == p then (if q == 0 then none else some q) else get p m)
get-write p k q m s = ground (arith, get-insert k p q m, get-remove k p m 0 s)

get-store :
    (p k q : ℕ) (m : TreeMap ℕ)
    → get p (store k q m) ≡ (if k == p then (if q == 0 then get p m else some q) else get p m)
get-store p k q m = ground (arith, get-insert k p q m)

pub put_all-IsOrdered :
    (put : Put)
    → ((k q : ℕ) (m : TreeMap ℕ) → IsOrdered m → IsOrdered (put k q m))
    → (us : List (ℕ × ℕ)) (m : TreeMap ℕ) → IsOrdered m
    → IsOrdered (put_all put us m)
unfolding put_all
put_all-IsOrdered put keep [] m s = s
put_all-IsOrdered put keep ((k, q) ∷ us) m s =
    put_all-IsOrdered put keep us (put k q m) (keep k q m s)

pub write_all-IsOrdered :
    (us : List (ℕ × ℕ)) (m : TreeMap ℕ) → IsOrdered m → IsOrdered (put_all write us m)
write_all-IsOrdered = put_all-IsOrdered write write-IsOrdered

pub store_all-IsOrdered :
    (us : List (ℕ × ℕ)) (m : TreeMap ℕ) → IsOrdered m → IsOrdered (put_all store us m)
store_all-IsOrdered = put_all-IsOrdered store store-IsOrdered

pub get-write_all :
    (p : ℕ) (us : List (ℕ × ℕ)) (m : TreeMap ℕ)
    → IsOrdered m
    → get p (put_all write us m) ≡ last_written p us (get p m)
unfolding put_all last_written
get-write_all p [] m s = refl
get-write_all p ((k, q) ∷ us) m s =
    rw (get-write_all p us (write k q m) (write-IsOrdered k q m s), get-write p k q m s)

pub get-store_all :
    (p : ℕ) (us : List (ℕ × ℕ)) (m : TreeMap ℕ)
    → get p (put_all store us m) ≡ last_stored p us (get p m)
unfolding put_all last_stored
get-store_all p [] m = refl
get-store_all p ((k, q) ∷ us) m = rw (get-store_all p us (store k q m), get-store p k q m)

module _ (fl : F64) where
  -- The levels up to the first text that does not parse, and whether there is one.
  unfoldable pub decode : List Quote → Outcome (List (ℕ × ℕ))
  decode [] = ([], ok tt)
  decode ((price_str, qty_str) ∷ rest) = elim (price_str_to_ticks fl price_str) [
    | err e ↦ ([], err e)
    | ok price ↦ elim (quantity_str_to_ticks fl qty_str) [
      | err e ↦ ([], err e)
      | ok qty ↦ let (us, end) = decode rest in ((price, qty) ∷ us, end)
    ]
  ]

  pub each_level-decode :
      (put : Put) (qs : List Quote) (m : TreeMap ℕ)
      → each_level fl put qs m ≡ (put_all put (decode qs).0 m, (decode qs).1)
  unfolding each_level decode put_all
  each_level-decode put [] m = refl
  each_level-decode put ((ps, qs) ∷ rest) m = elim (Result-cases (price_str_to_ticks fl ps)) [
    | inr (e, bad) ↦ rw (bad, each_level, decode)
    | inl (k, price) ↦ elim (Result-cases (quantity_str_to_ticks fl qs)) [
      | inr (e, bad) ↦ rw (price, bad, each_level, decode)
      | inl (q, qty) ↦ rw (price, qty, each_level, decode) (each_level-decode put rest (put k q m))
    ]
  ]
