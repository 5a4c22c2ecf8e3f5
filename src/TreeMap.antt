-- ===== src/TreeMap.antt =====
-- `std::collections::BTreeMap` with `u64` keys, as far as the program uses it: an association list
-- in ascending order of the keys, which is the order of its iterators.
pub mod Laws
pub mod Ends
pub mod Entries
pub mod Sums
use Prim.Native.Nat.{compare, Ordering}
use futures_orderbook.Prelude.{ℕ, suc, ◌≤◌, List, [], ◌∷◌, Option, none, some, ◌==◌, if◌then◌else◌}

abbrev pub TreeMap {ℓ} : Type ℓ → Type ℓ
TreeMap V = List (ℕ × V)

module _ {ℓ} {V : Type ℓ} where
  unfoldable pub get : ℕ → TreeMap V → Option V
  get k [] = none
  get k ((j, v) ∷ m) = if j == k then some v else get k m

  unfoldable pub insert : ℕ → V → TreeMap V → TreeMap V
  insert k v [] = (k, v) ∷ []
  insert k v ((j, w) ∷ m) = elim (compare k j) [
    | Ordering.lt ↦ (k, v) ∷ (j, w) ∷ m
    | Ordering.eq ↦ (k, v) ∷ m
    | Ordering.gt ↦ (j, w) ∷ insert k v m
  ]

  unfoldable pub remove : ℕ → TreeMap V → TreeMap V
  remove k [] = []
  remove k ((j, w) ∷ m) = if j == k then m else (j, w) ∷ remove k m

  -- `keys().next()`
  unfoldable pub first_key : TreeMap V → Option ℕ
  first_key [] = none
  first_key ((k, v) ∷ m) = some k

  -- `keys().next_back()`
  unfoldable pub last_key : TreeMap V → Option ℕ
  last_key [] = none
  last_key ((k, v) ∷ []) = some k
  last_key ((k, v) ∷ (j, w) ∷ m) = last_key ((j, w) ∷ m)

  -- The keys ascend, none of them below `b`.
  abbrev pub Ascends : ℕ → TreeMap V → Type 0
  Ascends b [] = Unit
  Ascends b ((k, v) ∷ m) = (b ≤ k) × Ascends (suc k) m

  abbrev pub IsOrdered : TreeMap V → Type 0
  IsOrdered m = Ascends 0 m
