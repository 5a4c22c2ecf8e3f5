-- ===== src/TreeMap/Sums.antt =====
-- A measure of the values, summed over a map, and what an insertion does to the sum.
use futures_orderbook.Prelude.{ℕ, suc, ◌+◌, ◌≤◌, ◌≡◌, [], ◌∷◌, Option, none, some, arith}
use futures_orderbook.TreeMap.{TreeMap, get, insert, Ascends}
use futures_orderbook.TreeMap.Laws.{get_below}

module _ {ℓ} {V : Type ℓ} (measure : V → ℕ) where
  abbrev pub sum : TreeMap V → ℕ
  sum [] = 0
  sum ((k, v) ∷ m) = measure v + sum m

  abbrev pub measured : Option V → ℕ
  measured none = 0
  measured (some v) = measure v

  pub sum-insert :
      (k b : ℕ) (v : V) (m : TreeMap V)
      → Ascends b m
      → sum (insert k v m) + measured (get k m) ≡ sum m + measure v
  unfolding insert get
  sum-insert k b v [] s = omega arith
  sum-insert k b v ((j, w) ∷ m) s =
      ground (arith, sum-insert k (suc j) v m s.1, get_below k m (suc j))

  pub measured_le : (k : ℕ) (m : TreeMap V) → measured (get k m) ≤ sum m
  unfolding get
  measured_le k [] = omega arith
  measured_le k ((j, w) ∷ m) = ground (arith, measured_le k m)
