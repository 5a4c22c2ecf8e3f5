-- ===== src/TreeMap/Entries.antt =====
-- Predicates on the entries of a map, through its updates and reads, and through `++` of maps.
use futures_orderbook.Prelude.{
  ℕ, ◌≡◌, ap₂, subst, ◌==◌, ==_iff, Bool-cases, inl, inr, [], ◌∷◌, some, All, arith,
}
use futures_orderbook.TreeMap.{TreeMap, get, insert, remove}

module _ {ℓ κ} {V : Type ℓ} (P : ℕ × V → Type κ) where
  pub insert-All : (k : ℕ) (v : V) (m : TreeMap V) → P (k, v) → All P m → All P (insert k v m)
  unfolding insert
  insert-All k v [] p h = (p, tt)
  insert-All k v ((j, w) ∷ m) p h = ground (arith, insert-All k v m p h.1)

  pub remove-All : (k : ℕ) (m : TreeMap V) → All P m → All P (remove k m)
  unfolding remove
  remove-All k [] h = tt
  remove-All k ((j, w) ∷ m) h = ground (arith, remove-All k m h.1)

some_eq {ℓ} : {V : Type ℓ} {v w : V} → some v ≡ some w → v ≡ w
some_eq e = cc

module _ {ℓ} {V : Type ℓ} (P : ℕ × V → Type 0) where
  pub All-get : (k : ℕ) (v : V) (m : TreeMap V) → All P m → get k m ≡ some v → P (k, v)
  unfolding get
  All-get k v [] h e = cc
  All-get k v ((j, w) ∷ m) h e = elim (Bool-cases (j == k)) [
    | inl hit ↦
        subst P (ap₂ (λ (a : ℕ) (c : V). (a, c)) ((==_iff j k).0 hit) (some_eq (rw hit at e))) h.0
    | inr miss ↦ All-get k v m h.1 (rw miss at e)
  ]
