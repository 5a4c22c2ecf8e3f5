-- ===== src/Book/Best.antt =====
-- The best prices, the spread and the self-check of a valid book.
use futures_orderbook.Prelude.{
  ℕ, ◌+◌, ◌-◌, ◌≤◌, ◌<◌, ◌≡◌, refl, ap, ◌∙◌, ◌↔◌, [], ◌∷◌, Option, none, some, Option-cases, inl,
  inr, ok, All, arith,
}
use futures_orderbook.Prelude.Word.{u64_mod}
use futures_orderbook.TreeMap.{TreeMap, get}
use futures_orderbook.TreeMap.Ends.{
  first_key-le, last_key-le, get-first_key, get-last_key, first_key-none, last_key-none,
}
use futures_orderbook.TreeMap.Entries.{All-get}
use futures_orderbook.Book.Defs.{OrderBook, best_bid, best_ask}
use futures_orderbook.Book.View.{spread, with_best, verify_invariants, first_zero, check_crossed}
use futures_orderbook.Book.Valid.{IsValid, IsSide, Fits}

-- The best bid of a valid book is a price at which it holds a bid, and no bid is above it.
best_bid_is_greatest :
    (b : OrderBook) (p : ℕ)
    → IsValid b
    → best_bid b ≡ some p
    → ((q : ℕ) × (get p b.bids ≡ some q)) × ((j q : ℕ) → get j b.bids ≡ some q → j ≤ p)
unfolding best_bid
best_bid_is_greatest b p v e = (
  (get-last_key b.bids p 0 v.bids.ordered e).1,
  λ j q. last_key-le b.bids 0 p j q v.bids.ordered e,
)

-- The best ask of a valid book is a price at which it holds an ask, and no ask is below it.
best_ask_is_least :
    (b : OrderBook) (a : ℕ)
    → IsValid b
    → best_ask b ≡ some a
    → ((q : ℕ) × (get a b.asks ≡ some q)) × ((j q : ℕ) → get j b.asks ≡ some q → a ≤ j)
unfolding best_ask
best_ask_is_least b a v e =
    (get-first_key b.asks a e, λ j q h. first_key-le b.asks 0 a j q v.asks.ordered e h)

-- Every bid price is below every ask price.
abbrev pub IsUncrossed : OrderBook → Type 0
IsUncrossed b = (j k q r : ℕ) → get j b.bids ≡ some q → get k b.asks ≡ some r → j < k

first_zero-none : (m : TreeMap ℕ) → All Fits m → first_zero m ≡ none
unfolding first_zero
first_zero-none [] h = refl
first_zero-none ((k, q) ∷ m) h = ground (arith, first_zero-none m h.1)

abbrev Apart : Option ℕ → Option ℕ → Type 0
Apart none _ = Unit
Apart (some p) none = Unit
Apart (some p) (some a) = p < a

check_crossed_iff : (x y : Option ℕ) → (check_crossed x y ≡ ok tt) ↔ Apart x y
check_crossed_iff none y = (λ _. tt, λ _. refl)
check_crossed_iff (some p) none = (λ _. tt, λ _. refl)
check_crossed_iff (some p) (some a) = (λ h. ground arith, λ h. ground arith)

best_bid-none : (b : OrderBook) → best_bid b ≡ none → b.bids ≡ []
unfolding best_bid
best_bid-none b e = last_key-none b.bids e

best_ask-none : (b : OrderBook) → best_ask b ≡ none → b.asks ≡ []
unfolding best_ask
best_ask-none b e = first_key-none b.asks e

get_none : (m : TreeMap ℕ) (j q : ℕ) → m ≡ [] → get j m ≡ some q → ⊥
unfolding get
get_none m j q e h = ground arith

best_bid-ge :
    (b : OrderBook) (j q : ℕ)
    → IsValid b
    → get j b.bids ≡ some q
    → (p : ℕ) × (best_bid b ≡ some p) × (j ≤ p)
best_bid-ge b j q v h = elim (Option-cases (best_bid b)) [
  | inl e ↦ absurd (get_none b.bids j q (best_bid-none b e) h)
  | inr (p, e) ↦ (p, e, (best_bid_is_greatest b p v e).1 j q h)
]

best_ask-le :
    (b : OrderBook) (k r : ℕ)
    → IsValid b
    → get k b.asks ≡ some r
    → (a : ℕ) × (best_ask b ≡ some a) × (a ≤ k)
best_ask-le b k r v h = elim (Option-cases (best_ask b)) [
  | inl e ↦ absurd (get_none b.asks k r (best_ask-none b e) h)
  | inr (a, e) ↦ (a, e, (best_ask_is_least b a v e).1 k r h)
]

Apart-IsUncrossed : (b : OrderBook) → IsValid b → Apart (best_bid b) (best_ask b) → IsUncrossed b
Apart-IsUncrossed b v h j k q r hj hk =
    let (p, ep, hp) = best_bid-ge b j q v hj in
    let (a, ea, ha) = best_ask-le b k r v hk in let apart : p < a = rw (ep, ea) at h in omega arith

IsUncrossed-Apart :
    (b : OrderBook) (x y : Option ℕ)
    → IsValid b
    → IsUncrossed b
    → best_bid b ≡ x
    → best_ask b ≡ y
    → Apart x y
IsUncrossed-Apart b none y v h ex ey = tt
IsUncrossed-Apart b (some p) none v h ex ey = tt
IsUncrossed-Apart b (some p) (some a) v h ex ey =
    let (q, hq) = (best_bid_is_greatest b p v ex).0 in
    let (r, hr) = (best_ask_is_least b a v ey).0 in h p a q r hq hr

verify-check :
    (b : OrderBook) → IsValid b → verify_invariants b ≡ check_crossed (best_bid b) (best_ask b)
unfolding verify_invariants
verify-check b v =
    rw (first_zero-none b.bids v.bids.fits, first_zero-none b.asks v.asks.fits, verify_invariants)

-- The self-check accepts a valid book exactly when every bid is below every ask.
pub verify_invariants_iff :
    (b : OrderBook) → IsValid b → (verify_invariants b ≡ ok tt) ↔ IsUncrossed b
verify_invariants_iff b v =
    let (accepted, apart) = check_crossed_iff (best_bid b) (best_ask b) in
    (
      λ h. Apart-IsUncrossed b v (accepted (rw (verify-check b v) at h)),
      λ h. rw (verify-check b v) (apart (IsUncrossed-Apart b _ _ v h refl refl)),
    )

with_best-some :
    (b : OrderBook) (f : ℕ → ℕ → ℕ) {p a : ℕ}
    → best_bid b ≡ some p
    → best_ask b ≡ some a
    → with_best b f ≡ some (f p a)
with_best-some b f ep ea = rw (ep, ea, with_best)

price_fits : (m : TreeMap ℕ) (k q : ℕ) → IsSide m → get k m ≡ some q → k < u64_mod
price_fits m k q s h = (All-get Fits k q m s.fits h).0

-- Where both best prices exist and the self-check accepts a valid book, the spread is what leads
-- from the best bid to the best ask, and it is not zero.
spread_uncrossed :
    (b : OrderBook) (p a : ℕ)
    → IsValid b
    → best_bid b ≡ some p
    → best_ask b ≡ some a
    → verify_invariants b ≡ ok tt
    → (s : ℕ) × (spread b ≡ some s) × (p + s ≡ a) × (0 < s)
unfolding spread
spread_uncrossed b p a v ep ea h =
    let (q, hq) = (best_bid_is_greatest b p v ep).0 in
    let (r, hr) = (best_ask_is_least b a v ea).0 in
    let below : p < a = (verify_invariants_iff b v).0 h p a q r hq hr in
    let fits : a < u64_mod = price_fits b.asks a r v.asks hr in
    (a - p, with_best-some b _ ep ea ∙ ap some (omega arith), omega arith, omega arith)
