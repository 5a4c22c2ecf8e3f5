-- ===== src/Storage/Memory/Picked.antt =====
-- What a read of a session returns, said without the code of the reads (src/storage/memory.rs).
use futures_orderbook.Prelude.{
  ℕ, ◌≡◌, ◌↔◌, subst, List, [], ◌∷◌, Bool, true, ◌==◌, Bool-cases, inl, inr, arith,
}
use futures_orderbook.Storage.Sorts.{
  sort_by_key, Climbs, with_key, sort_by_key-Climbs, with_key-sort_by_key,
}
use futures_orderbook.Storage.Memory.{filter}

-- `ys` are the elements of `xs` that have the property, in their order.
pub data Picks {A : Type 0} (P : A → Type 0) : List A → List A → Type 0 where
  none_left : Picks P [] []
  takes : {x : A} {xs ys : List A} → P x → Picks P xs ys → Picks P (x ∷ xs) (x ∷ ys)
  passes : {x : A} {xs ys : List A} → ¬ P x → Picks P xs ys → Picks P (x ∷ xs) ys

module _ {A Owner : Type 0} (key : A → ℕ) (owner : A → Owner) (id : Owner) where
  -- The keys of what was read do not descend; and for each key, the rows read with it are the rows
  -- given with it that the owner has, in the order in which they were given.
  pub record IsRead (given read : List A) : Type 0 where
    pub climbs : Climbs key read
    pub rows :
        (k : ℕ)
        → (same_key : List A) × Picks (λ x. key x ≡ k) read same_key
          × Picks (λ x. (owner x ≡ id) × (key x ≡ k)) given same_key

  with_key-Picks : (k : ℕ) (xs : List A) → Picks (λ x. key x ≡ k) xs (with_key key k xs)
  with_key-Picks k [] = none_left
  with_key-Picks k (x ∷ xs) = elim (Bool-cases (key x == k)) [
    | inl e ↦ rw e (takes (ground (arith, e)) (with_key-Picks k xs))
    | inr e ↦ rw e (passes (λ h. ground (arith, e, h)) (with_key-Picks k xs))
  ]

  module _ (same : Owner → Owner → Bool) (exact : (a b : Owner) → (same a b ≡ true) ↔ (a ≡ b)) where
    owned-Picks :
        (k : ℕ) (xs : List A)
        → Picks
            (λ x. (owner x ≡ id) × (key x ≡ k))
            xs
            (with_key key k (filter (λ x. same (owner x) id) xs))
    owned-Picks k [] = none_left
    owned-Picks k (x ∷ xs) = elim (Bool-cases (same (owner x) id)) [
      | inl o ↦ elim (Bool-cases (key x == k)) [
        | inl e ↦ rw (o, e) (takes ((exact (owner x) id).0 o, ground (arith, e)) (owned-Picks k xs))
        | inr e ↦ rw (o, e) (passes (λ h. ground (arith, e, h.1)) (owned-Picks k xs))
      ]
      | inr o ↦ rw o (
          passes (λ h. let t = (exact (owner x) id).1 h.0 in ground (arith, o, t))
            (owned-Picks k xs))
    ]

    pub sort_by_key-IsRead :
        (given : List A) → IsRead given (sort_by_key key (filter (λ x. same (owner x) id) given))
    sort_by_key-IsRead given =
        let kept = filter (λ x. same (owner x) id) given in
        record {
          climbs = sort_by_key-Climbs key kept;
          rows = λ k. (
            with_key key k kept,
            subst (Picks (λ x. key x ≡ k) (sort_by_key key kept)) (with_key-sort_by_key key k kept)
                (with_key-Picks k (sort_by_key key kept)),
            owned-Picks k given,
          );
        }
