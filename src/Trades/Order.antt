-- ===== src/Trades/Order.antt =====
-- The window of the trade processor, and what the processor does with an event.
use futures_orderbook.Prelude.{
  ℕ, ◌≤◌, ◌<◌, ◌≡◌, refl, ◌∙◌, ◌⊎◌, inl, inr, List, [], ◌∷◌, ◌++◌, true, false, Bool-cases, Option,
  none, some, All, All-append, All-imp, arith, ltb, length, length-append, if-elim, if_true,
  if_false, sym, subst, ◌==◌, ==_iff,
}
use futures_orderbook.Prelude.Word.{add64}
use futures_orderbook.Trades.Trade.{TradeEvent}
use futures_orderbook.Trades.Processor.{
  TradeProcessor, TradeProcessResult, processed, duplicate, stale, new, contains, remember,
  is_older, process, receive, accept, duplicate_window,
}

-- The window holds the last processed id, and none above it.
abbrev Recent : Option ℕ → List ℕ → Type 0
Recent none ids = ids ≡ []
Recent (some last) ids = (contains last ids ≡ true) × All (λ i. i ≤ last) ids

pub record IsOrdered (p : TradeProcessor) : Type 0 where
  pub recent : Recent p.last_trade_id p.recent_ids
  pub bounded : length p.recent_ids ≤ duplicate_window

contains-append : (id : ℕ) (ids : List ℕ) → contains id (ids ++ id ∷ []) ≡ true
unfolding contains
contains-append id [] = ground arith
contains-append id (x ∷ ids) = ground (arith, contains-append id ids)

not-contains_above :
    (id last : ℕ) (ids : List ℕ) → last < id → All (λ i. i ≤ last) ids → contains id ids ≡ false
unfolding contains
not-contains_above id last [] h a = refl
not-contains_above id last (x ∷ ids) h a = ground (arith, not-contains_above id last ids h a.1)

abbrev IsWindow : ℕ → List ℕ → Type 0
IsWindow id ids = (contains id ids ≡ true) × All (λ i. i ≤ id) ids × (length ids ≤ duplicate_window)

All-snoc : (id : ℕ) (ids : List ℕ) → All (λ i. i ≤ id) ids → All (λ i. i ≤ id) (ids ++ id ∷ [])
All-snoc id ids a = All-append (λ i. i ≤ id) ids (id ∷ []) a (omega arith, tt)

-- The window after an id that is at least as great as those in it.
remember-IsWindow :
    (id : ℕ) (ids : List ℕ)
    → length ids ≤ duplicate_window
    → All (λ i. i ≤ id) ids
    → IsWindow id (remember id ids)
unfolding remember
remember-IsWindow id [] h a = (contains-append id [], (omega arith, tt), omega arith)
remember-IsWindow id (x ∷ ids) h a =
    if-elim (IsWindow id) (ltb duplicate_window (length (x ∷ (ids ++ id ∷ [])))) _ _
      (λ over.
        (contains-append id ids, All-snoc id ids a.1, omega (arith, length-append ids (id ∷ []))))
      (λ fits. (contains-append id (x ∷ ids), (a.0, All-snoc id ids a.1), ground arith))

process-processed :
    (event : TradeEvent) (p : TradeProcessor)
    → contains event.trade_id p.recent_ids ≡ false
    → is_older event.trade_id p.last_trade_id ≡ false
    → process event p ≡ (accept event (receive p), processed)
unfolding process
process-processed event p fresh newer = if_false _ _ fresh ∙ if_false _ _ newer

-- The id is above every id processed so far.
abbrev pub IsNew : ℕ → Option ℕ → Type 0
IsNew id none = Unit
IsNew id (some last) = last < id

-- What an ordered processor does with an event.
abbrev pub Outcome : TradeEvent → TradeProcessor → TradeProcessor × TradeProcessResult → Type 0
Outcome event p (q, result) =
    (IsNew event.trade_id p.last_trade_id
      × (result ≡ processed)
      × (q.last_trade_id ≡ some event.trade_id)
      × (q.last_trade ≡ some event)
      × IsWindow event.trade_id q.recent_ids)
    ⊎ ((¬ IsNew event.trade_id p.last_trade_id)
        × ((result ≡ duplicate) ⊎ (result ≡ stale))
        × (q.last_trade_id ≡ p.last_trade_id)
        × (q.last_trade ≡ p.last_trade)
        × (q.recent_ids ≡ p.recent_ids))

process-duplicate :
    (event : TradeEvent) (p : TradeProcessor)
    → contains event.trade_id p.recent_ids ≡ true
    → process event p
      ≡ (record (receive p) { duplicate_trades = add64 p.duplicate_trades 1 }, duplicate)
unfolding process
process-duplicate event p seen = if_true _ _ seen

process-stale :
    (event : TradeEvent) (p : TradeProcessor)
    → contains event.trade_id p.recent_ids ≡ false
    → is_older event.trade_id p.last_trade_id ≡ true
    → process event p ≡ (record (receive p) { stale_trades = add64 p.stale_trades 1 }, stale)
unfolding process
process-stale event p fresh older = if_false _ _ fresh ∙ if_true _ _ older

abbrev IsFresh : ℕ → Option ℕ → List ℕ → Type 0
IsFresh id last ids = (contains id ids ≡ false) × (is_older id last ≡ false) × All (λ i. i ≤ id) ids

new-IsFresh :
    (id : ℕ) (last : Option ℕ) (ids : List ℕ)
    → Recent last ids
    → IsNew id last
    → IsFresh id last ids
unfolding contains
new-IsFresh id none ids empty h = subst (IsFresh id none) (sym empty) (refl, refl, tt)
new-IsFresh id (some last) ids (held, below) h = (
  not-contains_above id last ids h below,
  ground (arith, h),
  All-imp (λ i. i ≤ last) (λ i. i ≤ id) (λ i a. omega (arith, a, h)) ids below,
)

-- An id that is not new is in the window, or older than the last one.
old-cases :
    (id : ℕ) (last : Option ℕ) (ids : List ℕ)
    → Recent last ids
    → ¬ IsNew id last
    → (contains id ids ≡ true) ⊎ ((contains id ids ≡ false) × (is_older id last ≡ true))
old-cases id none ids r h = absurd (h tt)
old-cases id (some last) ids (held, below) h = elim (Bool-cases (contains id ids)) [
  | inl seen ↦ inl seen
  | inr fresh ↦ inr (fresh, unseen_older fresh)
]
  where
    unseen_older : contains id ids ≡ false → is_older id (some last) ≡ true
    unseen_older fresh = elim (Bool-cases (id == last)) [
      | inl same ↦ let e = (==_iff id last).0 same in cc
      | inr other ↦ ground (arith, h, other)
    ]

IsNew-cases : (id : ℕ) (last : Option ℕ) → IsNew id last ⊎ (¬ IsNew id last)
IsNew-cases id none = inl tt
IsNew-cases id (some last) = elim (Bool-cases (ltb last id)) [
  | inl e ↦ inl (ground (arith, e))
  | inr e ↦ inr (ground (arith, e))
]

-- A processor whose window is in order processes a trade whose id is above the last processed one,
-- and then remembers that trade, its id as the last one, and a window that holds it and is within
-- its bound. Any other trade is a duplicate or stale, and leaves these three as they were.
pub process_outcomes :
    (event : TradeEvent) (p : TradeProcessor) → IsOrdered p → Outcome event p (process event p)
process_outcomes event p o = elim (IsNew-cases event.trade_id p.last_trade_id) [
  | inl is_new ↦ taken is_new
  | inr not_new ↦ left not_new
]
  where
    taken : IsNew event.trade_id p.last_trade_id → Outcome event p (process event p)
    taken n =
        let (fresh, newer, below) =
          new-IsFresh event.trade_id p.last_trade_id p.recent_ids o.recent n in
        subst (Outcome event p) (sym (process-processed event p fresh newer))
          (inl (n, refl, refl, refl, remember-IsWindow event.trade_id p.recent_ids o.bounded below))

    left : ¬ IsNew event.trade_id p.last_trade_id → Outcome event p (process event p)
    left n = elim (old-cases event.trade_id p.last_trade_id p.recent_ids o.recent n) [
      | inl seen ↦
          subst (Outcome event p) (sym (process-duplicate event p seen))
            (inr (n, inl refl, refl, refl, refl))
      | inr (fresh, older) ↦
          subst (Outcome event p) (sym (process-stale event p fresh older))
            (inr (n, inr refl, refl, refl, refl))
    ]

Outcome-IsOrdered :
    (event : TradeEvent) (p : TradeProcessor) (r : TradeProcessor × TradeProcessResult)
    → IsOrdered p
    → Outcome event p r
    → IsOrdered r.0
Outcome-IsOrdered event p (q, _) o (inl (_, _, last, _, (held, below, bound))) = record {
  recent = subst (λ l. Recent l q.recent_ids) (sym last) (held, below);
  bounded = bound;
}
Outcome-IsOrdered event p (q, _) o (inr (_, _, last, _, ids)) = record {
  recent =
      subst (λ l. Recent l q.recent_ids) (sym last)
        (subst (Recent p.last_trade_id) (sym ids) o.recent);
  bounded = subst (λ i. length i ≤ duplicate_window) (sym ids) o.bounded;
}

-- Every event keeps the processor's window in order and within its bound: it holds the last id that
-- was processed, none above it, and at most 4096 ids.
pub process-IsOrdered :
    (event : TradeEvent) (p : TradeProcessor) → IsOrdered p → IsOrdered (process event p).0
process-IsOrdered event p o =
    Outcome-IsOrdered event p (process event p) o (process_outcomes event p o)

pub new-IsOrdered : IsOrdered new
unfolding new
new-IsOrdered = record { recent = refl; bounded = omega arith }
