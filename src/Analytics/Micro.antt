-- ===== src/Analytics/Micro.antt =====
-- The reads of the shadow book: whether it is crossed, the spread, and the microprice.
use native.Mathlib.Nat.{mul-add, mul-le-mul, mul-le-mul_right}
use futures_orderbook.Prelude.{
  ℕ, ◌+◌, ◌-◌, ◌*◌, ◌%◌, ◌^◌, ◌≤◌, ◌<◌, ◌≡◌, true, false, Option, some, ◌==◌, arith, leb, ap, sym,
  subst,
}
use futures_orderbook.Prelude.Word.{u64_mod, sub64}
use futures_orderbook.TreeMap.{get}
use futures_orderbook.TreeMap.Ends.{get-first_key, get-last_key}
use futures_orderbook.TreeMap.Entries.{All-get}
use futures_orderbook.Book.Valid.{IsSide, Fits}
use futures_orderbook.Analytics.Shadow.{
  ShadowBook, Microprice, new_microprice, weigh, best_bid, best_ask, is_crossed, spread_ticks,
  microprice,
}

abbrev pub Between : ℕ → ℕ → Option Microprice → Type 0
Between b a found =
    (m : Microprice) × (found ≡ some m) × (b * m.den ≤ m.num) × (m.num ≤ a * m.den) × (0 < m.den)

product_below : (a x : ℕ) → a < 2 ^ 63 → x < u64_mod → a * x ≤ (2 ^ 63 - 1) * (2 ^ 64 - 1)
product_below a x ha hx =
    mul-le-mul {n₁ = a} {m₁ = x} {n₂ = 2 ^ 63 - 1} {m₂ = 2 ^ 64 - 1} (omega arith) (omega arith)

weigh-some :
    (b a x y : ℕ)
    → a * x + b * y < 2 ^ 128
    → 0 < x + y
    → weigh b a x y ≡ some (record { num = a * x + b * y; den = x + y })
unfolding new_microprice
weigh-some b a x y fits pos =
    let nonzero : ((x + y) == 0) ≡ false = ground (arith, pos) in
    let exact : (a * x + b * y) % 2 ^ 128 ≡ a * x + b * y = omega (arith, fits) in
    rw (nonzero, exact)

-- A mean of two prices, weighted by quantities that are not both zero, lies between them.
weigh-Between :
    (b a x y : ℕ) → b ≤ a → a * x + b * y < 2 ^ 128 → 0 < x + y → Between b a (weigh b a x y)
weigh-Between b a x y h fits pos = (
  record { num = a * x + b * y; den = x + y },
  weigh-some b a x y fits pos,
  omega (arith, mul-add b x y, mul-le-mul_right x h),
  omega (arith, mul-add a x y, mul-le-mul_right y h),
  pos,
)

uncrossed-lt :
    (s : ShadowBook) (b a : ℕ)
    → best_bid s ≡ some b
    → best_ask s ≡ some a
    → is_crossed s ≡ false
    → b < a
unfolding is_crossed
uncrossed-lt s b a eb ea h = let apart : leb a b ≡ false = rw (eb, ea) at h in ground (arith, apart)

module _ (s : ShadowBook) (b a : ℕ) (bids : IsSide s.bids) (asks : IsSide s.asks)
    (eb : best_bid s ≡ some b) (ea : best_ask s ≡ some a) (uncrossed : is_crossed s ≡ false) where
  microprice-weigh :
      (x y : ℕ)
      → s.ready ≡ true
      → get b s.bids ≡ some x
      → get a s.asks ≡ some y
      → microprice s ≡ weigh b a x y
  unfolding microprice
  microprice-weigh x y r ex ey = rw (uncrossed, eb, ea, ex, ey, r, microprice)

  -- In a ready book whose sides are valid, that is not crossed and has both best prices, the ask below
  -- 2^63, the microprice exists and lies between the best bid and the best ask, both included.
  pub microprice-Between : s.ready ≡ true → a < 2 ^ 63 → Between b a (microprice s)
  unfolding best_bid best_ask
  microprice-Between r ha =
      let (x, ex) = (get-last_key s.bids b 0 bids.ordered eb).1 in
      let (y, ey) = get-first_key s.asks a ea in
      let (_, px, fx) = All-get Fits b x s.bids bids.fits ex in
      let (_, py, fy) = All-get Fits a y s.asks asks.fits ey in
      let below : b < a = uncrossed-lt s b a eb ea uncrossed in
      subst (Between b a) (sym (microprice-weigh x y r ex ey)) (
        weigh-Between b a x y (omega arith)
          (omega (arith, product_below a x ha fx, product_below b y (omega arith) fy))
          (omega arith))

  -- In a book whose sides are valid, that is not crossed and has both best prices, the spread leads
  -- from the best bid to the best ask and is not zero.
  spread_ticks_uncrossed : (d : ℕ) × (spread_ticks s ≡ some d) × (b + d ≡ a) × (0 < d)
  unfolding spread_ticks best_ask
  spread_ticks_uncrossed =
      let (y, ey) = get-first_key s.asks a ea in
      let (fits, _, _) = All-get Fits a y s.asks asks.fits ey in
      let below : b < a = uncrossed-lt s b a eb ea uncrossed in
      let exact : sub64 a b ≡ a - b = omega arith in
      (a - b, rw (uncrossed, eb, ea, spread_ticks) (ap some exact), omega arith, omega arith)
