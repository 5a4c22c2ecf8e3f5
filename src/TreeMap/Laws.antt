-- ===== src/TreeMap/Laws.antt =====
-- What a map reads after each update, that updates keep it ordered, and that its reads determine it.
use futures_orderbook.Prelude.{
  ℕ, suc, ◌≤◌, ◌<◌, ◌≡◌, refl, ap₂, [], ◌∷◌, none, some, arith, ◌==◌, ==_refl, if◌then◌else◌,
}
use futures_orderbook.TreeMap.{TreeMap, get, insert, remove, Ascends}

module _ {ℓ} {V : Type ℓ} where
  pub Ascends-mono : (m : TreeMap V) (a b : ℕ) → a ≤ b → Ascends b m → Ascends a m
  Ascends-mono [] a b h s = tt
  Ascends-mono ((k, v) ∷ m) a b h s = (omega arith, s.1)

  pub insert-Ascends :
      (k : ℕ) (v : V) (m : TreeMap V) (b : ℕ) → b ≤ k → Ascends b m → Ascends b (insert k v m)
  unfolding insert
  insert-Ascends k v [] b h s = (h, tt)
  insert-Ascends k v ((j, w) ∷ m) b h s = ground (arith, insert-Ascends k v m (suc j))

  pub remove-Ascends : (k : ℕ) (m : TreeMap V) (b : ℕ) → Ascends b m → Ascends b (remove k m)
  unfolding remove
  remove-Ascends k [] b s = tt
  remove-Ascends k ((j, w) ∷ m) b s =
      ground (arith, remove-Ascends k m (suc j), Ascends-mono m b (suc j))

  pub get_below : (k : ℕ) (m : TreeMap V) (b : ℕ) → k < b → Ascends b m → get k m ≡ none
  unfolding get
  get_below k [] b h s = refl
  get_below k ((j, w) ∷ m) b h s = ground (arith, get_below k m (suc j))

  pub get-insert :
      (k j : ℕ) (v : V) (m : TreeMap V)
      → get j (insert k v m) ≡ (if k == j then some v else get j m)
  unfolding get insert
  get-insert k j v [] = refl
  get-insert k j v ((i, w) ∷ m) = ground (arith, get-insert k j v m)

  pub get-remove :
      (k j : ℕ) (m : TreeMap V) (b : ℕ)
      → Ascends b m
      → get j (remove k m) ≡ (if k == j then none else get j m)
  unfolding get remove
  get-remove k j [] b s = ground arith
  get-remove k j ((i, w) ∷ m) b s =
      ground (arith, get-remove k j m (suc i) s.1, get_below k m (suc i))

  head_key_eq :
      (k j : ℕ) (v w : V) (m n : TreeMap V)
      → Ascends (suc k) m
      → Ascends (suc j) n
      → get k ((k, v) ∷ m) ≡ get k ((j, w) ∷ n)
      → get j ((k, v) ∷ m) ≡ get j ((j, w) ∷ n)
      → k ≡ j
  unfolding get
  head_key_eq k j v w m n s t hk hj = ground (arith, get_below j m (suc k), get_below k n (suc j))

  get_head : (k j : ℕ) (v : V) (m : TreeMap V) → k ≡ j → get j ((k, v) ∷ m) ≡ some v
  unfolding get
  get_head k j v m e = rw (e, ==_refl j)

  head_value_eq :
      (k j : ℕ) (v w : V) (m n : TreeMap V)
      → k ≡ j
      → get j ((k, v) ∷ m) ≡ get j ((j, w) ∷ n)
      → v ≡ w
  head_value_eq k j v w m n e h = cc (get_head k j v m e, get_head j j w n refl)

  tail_eq :
      (k j : ℕ) (v w : V) (m n : TreeMap V) (q : ℕ)
      → k ≡ j
      → Ascends (suc k) m
      → Ascends (suc j) n
      → get q ((k, v) ∷ m) ≡ get q ((j, w) ∷ n)
      → get q m ≡ get q n
  unfolding get
  tail_eq k j v w m n q e s t h = ground (arith, get_below q m (suc k), get_below q n (suc j))

  -- Two ordered maps that read the same at every key are the same map.
  pub TreeMap-ext :
      (m n : TreeMap V) (b : ℕ) → Ascends b m → Ascends b n → ((k : ℕ) → get k m ≡ get k n) → m ≡ n
  unfolding get
  TreeMap-ext [] [] b s t h = refl
  TreeMap-ext [] ((j, w) ∷ n) b s t h = ground (arith, h j)
  TreeMap-ext ((k, v) ∷ m) [] b s t h = ground (arith, h k)
  TreeMap-ext ((k, v) ∷ m) ((j, w) ∷ n) b s t h =
      let e = head_key_eq k j v w m n s.1 t.1 (h k) (h j) in
      let rest =
        TreeMap-ext m n (suc k) s.1 (Ascends-mono n (suc k) (suc j) (omega arith) t.1)
          (λ q. tail_eq k j v w m n q e s.1 t.1 (h q)) in
      ap₂ ◌∷◌ (ap₂ (λ (a : ℕ) (c : V). (a, c)) e (head_value_eq k j v w m n e (h j))) rest
