-- ===== src/Analytics/Deltas.antt =====
-- The changes that the shadow book reports account for what changed in it.
use futures_orderbook.Prelude.{
  ℕ, ◌+◌, ◌≡◌, refl, ap, List, [], ◌∷◌, ◌++◌, Bool, Bool-cases, true, false, ◌&&◌, inl, inr, Option,
  none, some, ◌==◌, if◌then◌else◌, arith, if_false, if-elim, subst, ==_iff,
}
use futures_orderbook.TreeMap.{TreeMap, get, IsOrdered}
use futures_orderbook.Events.{Change}
use futures_orderbook.Book.Apply.{write}
use futures_orderbook.Book.Spec.{get-write, write-IsOrdered}
use futures_orderbook.Analytics.Shadow.{
  BookSide, bid, ask, LevelChange, ShadowBook, differs, update_levels, apply_update, unwrap_or_zero,
  quantity_at,
}

abbrev pub same_side : BookSide → BookSide → Bool
same_side bid bid = true
same_side ask ask = true
same_side bid ask = false
same_side ask bid = false

abbrev pub at : BookSide → ℕ → LevelChange → Bool
at side p c = same_side c.side side && c.price == p

-- The new quantities that the changes report at a price, summed.
unfoldable pub shown : BookSide → ℕ → List LevelChange → ℕ
shown side p [] = 0
shown side p (c ∷ cs) = if at side p c then c.new_qty + shown side p cs else shown side p cs

-- The old ones.
unfoldable pub withdrawn : BookSide → ℕ → List LevelChange → ℕ
withdrawn side p [] = 0
withdrawn side p (c ∷ cs) =
    if at side p c then unwrap_or_zero c.old_qty + withdrawn side p cs else withdrawn side p cs

shown-append :
    (side : BookSide) (p : ℕ) (xs ys : List LevelChange)
    → shown side p (xs ++ ys) ≡ shown side p xs + shown side p ys
unfolding shown
shown-append side p [] ys = omega arith
shown-append side p (c ∷ xs) ys = ground (arith, shown-append side p xs ys)

withdrawn-append :
    (side : BookSide) (p : ℕ) (xs ys : List LevelChange)
    → withdrawn side p (xs ++ ys) ≡ withdrawn side p xs + withdrawn side p ys
unfolding withdrawn
withdrawn-append side p [] ys = omega arith
withdrawn-append side p (c ∷ xs) ys = ground (arith, withdrawn-append side p xs ys)

-- `out` accounts for the way of the quantity at `p` from `before` to `after`.
abbrev Balances : BookSide → ℕ → Option ℕ → Option ℕ → List LevelChange → Type 0
Balances side p before after out =
    unwrap_or_zero before + shown side p out ≡ unwrap_or_zero after + withdrawn side p out

same_side_refl : (side : BookSide) → same_side side side ≡ true
same_side_refl bid = refl
same_side_refl ask = refl

abbrev change : BookSide → ℕ → Option ℕ → ℕ → LevelChange
change side k old q = record { side = side; price = k; old_qty = old; new_qty = q }

-- The quantity at `p` after a level was written at `k`.
abbrev stepped : ℕ → ℕ → ℕ → Option ℕ → Option ℕ
stepped p k q old = if k == p then (if q == 0 then none else some q) else old

differs_same : (old : Option ℕ) (q : ℕ) → differs old q ≡ false → old ≡ some q
differs_same none q h = cc
differs_same (some o) q h = ground (arith, h)

stepped_here :
    (p k q : ℕ) (old : Option ℕ) → (k == p) ≡ true → unwrap_or_zero (stepped p k q old) ≡ q
stepped_here p k q old e = ground (arith, e)

stepped_elsewhere : (p k q : ℕ) (old : Option ℕ) → (k == p) ≡ false → stepped p k q old ≡ old
stepped_elsewhere p k q old e = if_false _ _ e

shown-here :
    (side : BookSide) (p k q : ℕ) (old : Option ℕ) (out : List LevelChange)
    → (k == p) ≡ true
    → (shown side p (change side k old q ∷ out) ≡ q + shown side p out)
      × (withdrawn side p (change side k old q ∷ out) ≡ unwrap_or_zero old + withdrawn side p out)
unfolding shown withdrawn
shown-here bid p k q old out e = rw e (refl, refl)
shown-here ask p k q old out e = rw e (refl, refl)

shown-elsewhere :
    (side : BookSide) (p k q : ℕ) (old : Option ℕ) (out : List LevelChange)
    → (k == p) ≡ false
    → (shown side p (change side k old q ∷ out) ≡ shown side p out)
      × (withdrawn side p (change side k old q ∷ out) ≡ withdrawn side p out)
unfolding shown withdrawn
shown-elsewhere bid p k q old out e = rw e (refl, refl)
shown-elsewhere ask p k q old out e = rw e (refl, refl)

-- One entry more at the front. `before` is the quantity at `p`, `old` that at `k`.
Balances-step :
    (side : BookSide) (p k q : ℕ) (before old after : Option ℕ) (out : List LevelChange)
    → ((k == p) ≡ true → old ≡ before)
    → Balances side p (stepped p k q before) after out
    → Balances side p before after (if differs old q then change side k old q ∷ out else out)
Balances-step side p k q before old after out same h = elim (Bool-cases (k == p)) [
  | inl here ↦
      let at_k = stepped_here p k q before here in
      let e = ap unwrap_or_zero (same here) in
      let (new_sum, old_sum) = shown-here side p k q old out here in
      if-elim (Balances side p before after) (differs old q) _ out
        (λ _. omega (arith, h, at_k, e, new_sum, old_sum))
        (λ equal.
          let f = ap unwrap_or_zero (differs_same old q equal) in omega (arith, h, at_k, e, f))
  | inr elsewhere ↦
      let kept = ap unwrap_or_zero (stepped_elsewhere p k q before elsewhere) in
      let (new_sum, old_sum) = shown-elsewhere side p k q old out elsewhere in
      if-elim (Balances side p before after) (differs old q) _ out
        (λ _. omega (arith, h, kept, new_sum, old_sum)) (λ _. omega (arith, h, kept))
]

update_levels-Balances :
    (side : BookSide) (p : ℕ) (changes : List Change) (m : TreeMap ℕ)
    → IsOrdered m
    → let (n, out) = update_levels side changes m in Balances side p (get p m) (get p n) out
unfolding update_levels shown withdrawn
update_levels-Balances side p [] m s = refl
update_levels-Balances side p (c ∷ changes) m s =
    let (n, out) = update_levels side changes (write c.price c.new_qty m) in
    Balances-step side p c.price c.new_qty (get p m) (get c.price m) (get p n) out
      (λ e. ap (λ k. get k m) ((==_iff c.price p).0 e))
      (subst (λ before. Balances side p before (get p n) out) (get-write p c.price c.new_qty m s)
        (update_levels-Balances side p changes (write c.price c.new_qty m)
          (write-IsOrdered c.price c.new_qty m s)))

-- The changes of one side say nothing of the other.
update_levels-silent :
    (side other : BookSide) (p : ℕ) (changes : List Change) (m : TreeMap ℕ)
    → same_side other side ≡ false
    → let (n, out) = update_levels other changes m in
      (shown side p out ≡ 0) × (withdrawn side p out ≡ 0)
unfolding update_levels shown withdrawn
update_levels-silent side other p [] m h = (refl, refl)
update_levels-silent side other p (c ∷ changes) m h =
    let (a, b) = update_levels-silent side other p changes (write c.price c.new_qty m) h in
    if-elim (λ out. (shown side p out ≡ 0) × (withdrawn side p out ≡ 0))
      (differs (get c.price m) c.new_qty) _ _ (λ _. rw h (a, b)) (λ _. (a, b))

-- In a book whose sides are ordered, at every price of either side, the old quantity and the new quantities of the reported changes
-- add up to the new quantity and their old quantities: the deltas of the changes sum to the
-- difference in displayed quantity.
pub apply_update_deltas :
    (side : BookSide) (p : ℕ) (bids asks : List Change) (id : ℕ) (b : ShadowBook)
    → IsOrdered b.bids
    → IsOrdered b.asks
    → let (c, out) = apply_update bids asks id b in
      quantity_at side p b + shown side p out ≡ quantity_at side p c + withdrawn side p out
unfolding apply_update quantity_at
apply_update_deltas bid p bids asks id b sb sa =
    let from_bids = (update_levels bid bids b.bids).1 in
    let from_asks = (update_levels ask asks b.asks).1 in
    let (a, w) = update_levels-silent bid ask p asks b.asks refl in
    omega (
      arith,
      update_levels-Balances bid p bids b.bids sb,
      shown-append bid p from_bids from_asks,
      withdrawn-append bid p from_bids from_asks,
      a,
      w,
    )
apply_update_deltas ask p bids asks id b sb sa =
    let from_bids = (update_levels bid bids b.bids).1 in
    let from_asks = (update_levels ask asks b.asks).1 in
    let (a, w) = update_levels-silent ask bid p bids b.bids refl in
    omega (
      arith,
      update_levels-Balances ask p asks b.asks sa,
      shown-append ask p from_bids from_asks,
      withdrawn-append ask p from_bids from_asks,
      a,
      w,
    )
