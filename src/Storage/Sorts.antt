-- ===== src/Storage/Sorts.antt =====
-- `Vec::sort_by_key`, which is stable, as insertion from the last element to the first; `before` is
-- the strict order of the keys.
use futures_orderbook.Prelude.{
  ℕ, ◌≤◌, ◌≡◌, refl, ◌∙◌, ap, List, [], ◌∷◌, Bool, ◌==◌, ltb, if◌then◌else◌, All, All-imp,
  Bool-cases, inl, inr, arith,
}

module _ {A : Type 0} (before : A → A → Bool) where
  unfoldable pub insert_by : A → List A → List A
  insert_by x [] = x ∷ []
  insert_by x (y ∷ ys) = let rest = insert_by x ys in if before y x then y ∷ rest else x ∷ y ∷ ys

  unfoldable pub sort_by : List A → List A
  sort_by [] = []
  sort_by (x ∷ xs) = insert_by x (sort_by xs)

abbrev pub key_order : {A : Type 0} → (A → ℕ) → A → A → Bool
key_order key x y = ltb (key x) (key y)

module _ {A : Type 0} (key : A → ℕ) where
  unfoldable pub sort_by_key : List A → List A
  sort_by_key = sort_by (key_order key)

  -- The keys do not descend.
  abbrev pub Climbs : List A → Type 0
  Climbs [] = Unit
  Climbs (x ∷ xs) = All (λ y. key x ≤ key y) xs × Climbs xs

  -- The elements with one key, in their order.
  abbrev pub with_key : ℕ → List A → List A
  with_key k [] = []
  with_key k (x ∷ xs) = let rest = with_key k xs in if key x == k then x ∷ rest else rest

  insert_by-All :
      (P : A → Type 0) (x : A) (xs : List A)
      → P x
      → All P xs
      → All P (insert_by (key_order key) x xs)
  unfolding insert_by
  insert_by-All P x [] p h = (p, tt)
  insert_by-All P x (y ∷ ys) p h = elim (Bool-cases (key_order key y x)) [
    | inl e ↦ rw (e, insert_by) (h.0, insert_by-All P x ys p h.1)
    | inr e ↦ rw (e, insert_by) (p, h)
  ]

  insert_by-Climbs : (x : A) (xs : List A) → Climbs xs → Climbs (insert_by (key_order key) x xs)
  unfolding insert_by
  insert_by-Climbs x [] h = (tt, tt)
  insert_by-Climbs x (y ∷ ys) h = elim (Bool-cases (key_order key y x)) [
    | inl e ↦
        rw (e, insert_by)
          (
            insert_by-All (λ z. key y ≤ key z) x ys (ground (arith, e)) h.0,
            insert_by-Climbs x ys h.1,
          )
    | inr e ↦
        let first : key x ≤ key y = ground (arith, e) in
        rw (e, insert_by)
          (
            (
              first,
              All-imp (λ z. key y ≤ key z) (λ z. key x ≤ key z) (λ z g. omega (arith, first, g)) ys
                  h.0,
            ),
            h,
          )
  ]

  insert_by-with_key :
      (k : ℕ) (x : A) (xs : List A)
      → with_key k (insert_by (key_order key) x xs) ≡ with_key k (x ∷ xs)
  unfolding insert_by
  insert_by-with_key k x [] = refl
  insert_by-with_key k x (y ∷ ys) = ground (arith, insert_by-with_key k x ys)

  pub sort_by_key-Climbs : (xs : List A) → Climbs (sort_by_key xs)
  unfolding sort_by_key sort_by
  sort_by_key-Climbs [] = tt
  sort_by_key-Climbs (x ∷ xs) = insert_by-Climbs x (sort_by_key xs) (sort_by_key-Climbs xs)

  pub with_key-sort_by_key : (k : ℕ) (xs : List A) → with_key k (sort_by_key xs) ≡ with_key k xs
  unfolding sort_by_key sort_by
  with_key-sort_by_key k [] = refl
  with_key-sort_by_key k (x ∷ xs) =
      let ih = with_key-sort_by_key k xs in
      insert_by-with_key k x (sort_by_key xs)
      ∙ ap (λ rest. if key x == k then x ∷ rest else rest) ih
