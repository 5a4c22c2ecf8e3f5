-- ===== src/TreeMap/Ends.antt =====
-- The first and the last key are the least and the greatest.
use futures_orderbook.Prelude.{ℕ, suc, ◌≤◌, ◌≡◌, refl, [], ◌∷◌, none, some, arith}
use futures_orderbook.TreeMap.{TreeMap, get, first_key, last_key, Ascends}
use futures_orderbook.TreeMap.Laws.{get_below}

module _ {ℓ} {V : Type ℓ} where
  pub first_key-le :
      (m : TreeMap V) (b k j : ℕ) (v : V)
      → Ascends b m
      → first_key m ≡ some k
      → get j m ≡ some v
      → k ≤ j
  unfolding first_key get
  first_key-le [] b k j v s e g = ground arith
  first_key-le ((i, w) ∷ m) b k j v s e g = ground (arith, get_below j m (suc i))

  pub get-first_key : (m : TreeMap V) (k : ℕ) → first_key m ≡ some k → (v : V) × (get k m ≡ some v)
  unfolding first_key get
  get-first_key [] k e = ground arith
  get-first_key ((i, w) ∷ m) k e = (w, ground arith)

  pub get-last_key :
      (m : TreeMap V) (k : ℕ) (b : ℕ)
      → Ascends b m
      → last_key m ≡ some k
      → (b ≤ k) × ((v : V) × (get k m ≡ some v))
  unfolding last_key get
  get-last_key [] k b s e = ground arith
  get-last_key ((i, w) ∷ []) k b s e = (ground arith, (w, ground arith))
  get-last_key ((i, w) ∷ (j, u) ∷ m) k b s e =
      let ih = get-last_key ((j, u) ∷ m) k (suc i) s.1 e in
      (omega (arith, ih.0), (ih.1.0, ground (arith, ih.0, ih.1.1)))

  pub last_key-le :
      (m : TreeMap V) (b k j : ℕ) (v : V)
      → Ascends b m
      → last_key m ≡ some k
      → get j m ≡ some v
      → j ≤ k
  unfolding last_key get
  last_key-le [] b k j v s e g = ground arith
  last_key-le ((i, w) ∷ []) b k j v s e g = ground arith
  last_key-le ((i, w) ∷ (l, u) ∷ m) b k j v s e g = ground (
    arith,
    last_key-le ((l, u) ∷ m) (suc i) k j v s.1 e,
    (get-last_key ((l, u) ∷ m) k (suc i) s.1 e).0,
  )

  pub first_key-none : (m : TreeMap V) → first_key m ≡ none → m ≡ []
  unfolding first_key
  first_key-none [] e = refl
  first_key-none ((k, v) ∷ m) e = cc

  pub last_key-none : (m : TreeMap V) → last_key m ≡ none → m ≡ []
  unfolding last_key
  last_key-none [] e = refl
  last_key-none ((k, v) ∷ []) e = cc
  last_key-none ((k, v) ∷ (j, w) ∷ m) e = ground (arith, last_key-none ((j, w) ∷ m) e)
