-- ===== src/Analytics/Liquidity/Account.antt =====
-- The liquidity that the tracker counts accounts for the changes it was given.
use futures_orderbook.Prelude.{
  ℕ, ◌+◌, ◌-◌, ◌%◌, ◌≤◌, ◌≡◌, refl, sym, ◌∙◌, ap, subst, List, [], ◌∷◌, ◌++◌, Option, none, some,
  All, arith, ltb, Option-cases, inl, inr, if-elim,
}
use futures_orderbook.Prelude.Word.{u64_mod}
use futures_orderbook.TreeMap.{TreeMap, get}
use futures_orderbook.TreeMap.Entries.{insert-All, All-get}
use futures_orderbook.Analytics.Shadow.{BookSide, bid, ask, LevelChange, unwrap_or_zero}
use futures_orderbook.Analytics.Derived.{
  AnalyticsEvent, AnalyticsEventKind, liquidity_replenishment,
}
use futures_orderbook.Analytics.Liquidity.{
  LiquidityChangeKind, added, removed, increased, decreased, unchanged, classify, LevelPersistence,
  LiquidityTracker, new, count_change, replenished, replenish, persisted, persist, on_changed,
  on_level_change,
}

-- What the class of a change says of its quantities.
abbrev Says : LiquidityChangeKind → ℕ → ℕ → Type 0
Says added old n = old ≡ 0
Says removed old n = n ≡ 0
Says increased old n = old ≤ n
Says decreased old n = n ≤ old
Says unchanged old n = old ≡ n

classify-Says : (old : Option ℕ) (n : ℕ) → Says (classify old n) (unwrap_or_zero old) n
unfolding classify
classify-Says none n = ground arith
classify-Says (some o) n = ground arith

abbrev is_replenishment : AnalyticsEventKind → ℕ
is_replenishment liquidity_replenishment = 1
is_replenishment _ = 0

-- The replenishment candidates among events.
abbrev pub replenishments : List AnalyticsEvent → ℕ
replenishments [] = 0
replenishments (e ∷ es) = is_replenishment e.kind + replenishments es

replenishments-append :
    (es fs : List AnalyticsEvent)
    → replenishments (es ++ fs) ≡ replenishments es + replenishments fs
replenishments-append [] fs = omega arith
replenishments-append (e ∷ es) fs = omega (arith, replenishments-append es fs)

-- The entry of a price on a side.
pub record IsLevel (of : BookSide) (e : ℕ × LevelPersistence) : Type 0 where
  pub side : e.1.side ≡ of
  pub price : e.1.price ≡ e.0
  pub peak : e.1.current_quantity ≤ e.1.peak_quantity

abbrev Levels : LiquidityTracker → Type 0
Levels t = All (IsLevel bid) t.levels.bids × All (IsLevel ask) t.levels.asks

replenished_lem :
    (c : LevelChange) (ts : ℕ) (o : Option (List (ℕ × ℕ))) (t : LiquidityTracker)
    → let (u, out) = replenished c ts o t in
      (u.added_ticks ≡ t.added_ticks)
      × (u.removed_ticks ≡ t.removed_ticks)
      × (u.levels ≡ t.levels)
      × (u.replenishment_count % u64_mod ≡ (t.replenishment_count + replenishments out) % u64_mod)
replenished_lem c ts none t = (refl, refl, refl, omega arith)
replenished_lem c ts (some rest) t = (refl, refl, refl, omega arith)

-- `u` and the events come from `t` and a change.
pub record Follows (c : LevelChange) (t u : LiquidityTracker) (out : List AnalyticsEvent)
    : Type 0 where
  pub more : ℕ
  pub less : ℕ
  pub added : u.added_ticks % u64_mod ≡ (t.added_ticks + more) % u64_mod
  pub removed : u.removed_ticks % u64_mod ≡ (t.removed_ticks + less) % u64_mod
  pub balance : unwrap_or_zero c.old_qty + more ≡ c.new_qty + less
  pub levels : Levels u
  pub counted :
      u.replenishment_count % u64_mod ≡ (t.replenishment_count + replenishments out) % u64_mod

persisted-IsLevel :
    (c : LevelChange) (ts : ℕ) (side : BookSide) (m : TreeMap LevelPersistence)
    → c.side ≡ side
    → All (IsLevel side) m
    → IsLevel side (c.price, persisted c ts (get c.price m))
persisted-IsLevel c ts side m s h = elim (Option-cases (get c.price m)) [
  | inl e ↦ rw e (record { side = s; price = refl; peak = omega arith })
  | inr (rec, e) ↦
      let v = All-get (IsLevel side) c.price rec m h e in
      rw e (record { side = v.side; price = v.price; peak = ground arith })
]

persist-Levels :
    (side : BookSide) (c : LevelChange) (ts : ℕ) (t : LiquidityTracker)
    → c.side ≡ side
    → Levels t
    → Levels (persist side c ts t)
persist-Levels bid c ts t e h = (
  insert-All (IsLevel bid) c.price (persisted c ts (get c.price t.levels.bids)) t.levels.bids
      (persisted-IsLevel c ts bid t.levels.bids e h.0) h.0,
  h.1,
)
persist-Levels ask c ts t e h = (
  h.0,
  insert-All (IsLevel ask) c.price (persisted c ts (get c.price t.levels.asks)) t.levels.asks
      (persisted-IsLevel c ts ask t.levels.asks e h.1) h.1,
)

replenish_lem :
    (c : LevelChange) (ts : ℕ) (t : LiquidityTracker)
    → let (u, out) = replenish c ts t in
      (u.added_ticks ≡ t.added_ticks)
      × (u.removed_ticks ≡ t.removed_ticks)
      × (u.levels ≡ t.levels)
      × (u.replenishment_count % u64_mod ≡ (t.replenishment_count + replenishments out) % u64_mod)
unfolding replenish
replenish_lem c ts t =
    if-elim
      (λ (r : LiquidityTracker × List AnalyticsEvent).
        (r.0.added_ticks ≡ t.added_ticks)
        × (r.0.removed_ticks ≡ t.removed_ticks)
        × (r.0.levels ≡ t.levels)
        × (r.0.replenishment_count % u64_mod
            ≡ (t.replenishment_count + replenishments r.1) % u64_mod))
      (ltb (unwrap_or_zero c.old_qty) c.new_qty) _ _ (λ _. replenished_lem c ts _ t)
      (λ _. (refl, refl, refl, omega arith))

-- After the arm of the match: the rest of the handler.
finished :
    (c : LevelChange) (ts more less : ℕ) (t counted : LiquidityTracker) (out : List AnalyticsEvent)
    → counted.added_ticks % u64_mod ≡ (t.added_ticks + more) % u64_mod
    → counted.removed_ticks % u64_mod ≡ (t.removed_ticks + less) % u64_mod
    → unwrap_or_zero c.old_qty + more ≡ c.new_qty + less
    → counted.levels ≡ t.levels
    → counted.replenishment_count ≡ t.replenishment_count
    → replenishments out ≡ 0
    → Levels t
    → let (filled, rest) = replenish c ts counted in
      Follows c t (persist c.side c ts filled) (out ++ rest)
finished c ts more less t counted out a r b l n z h =
    let (filled, rest) = replenish c ts counted in
    let (same_added, same_removed, same_levels, fresh) = replenish_lem c ts counted in
    record {
      more = more;
      less = less;
      added = ap (λ n. n % u64_mod) same_added ∙ a;
      removed = ap (λ n. n % u64_mod) same_removed ∙ r;
      balance = b;
      levels = persist-Levels c.side c ts filled refl (
          subst (λ m. All (IsLevel bid) m.bids × All (IsLevel ask) m.asks) (sym (same_levels ∙ l))
            h);
      counted = omega (arith, fresh, n, z, replenishments-append out rest);
    }

on_changed-Follows :
    (kind : LiquidityChangeKind) (c : LevelChange) (ts : ℕ) (t : LiquidityTracker)
    → Says kind (unwrap_or_zero c.old_qty) c.new_qty
    → Levels t
    → let (u, out) = on_changed kind c ts t in Follows c t u out
on_changed-Follows unchanged c ts t says h = record {
  more = 0;
  less = 0;
  added = omega arith;
  removed = omega arith;
  balance = omega (arith, says);
  levels = h;
  counted = omega arith;
}
on_changed-Follows added c ts t says h =
    let (counted, out) = count_change added c ts t in
    finished c ts c.new_qty 0 t counted out (omega arith) (omega arith) (omega (arith, says)) refl
      refl refl h
on_changed-Follows removed c ts t says h =
    let (counted, out) = count_change removed c ts t in
    finished c ts 0 (unwrap_or_zero c.old_qty) t counted out (omega arith) (omega arith)
      (omega (arith, says)) refl refl refl h
on_changed-Follows increased c ts t says h =
    let (counted, out) = count_change increased c ts t in
    finished c ts (c.new_qty - unwrap_or_zero c.old_qty) 0 t counted out (omega arith) (omega arith)
      (omega (arith, says)) refl refl refl h
on_changed-Follows decreased c ts t says h =
    let (counted, out) = count_change decreased c ts t in
    finished c ts 0 (unwrap_or_zero c.old_qty - c.new_qty) t counted out (omega arith) (omega arith)
      (omega (arith, says)) refl refl refl h

-- The old and the new quantities of the changes, summed.
abbrev pub olds : List (LevelChange × ℕ) → ℕ
olds [] = 0
olds ((c, ts) ∷ changes) = unwrap_or_zero c.old_qty + olds changes

abbrev pub news : List (LevelChange × ℕ) → ℕ
news [] = 0
news ((c, ts) ∷ changes) = c.new_qty + news changes

-- The changes of a history, each at its time, and all events that they produce.
unfoldable pub track_all :
    List (LevelChange × ℕ) → LiquidityTracker → LiquidityTracker × List AnalyticsEvent
track_all [] t = (t, [])
track_all ((c, ts) ∷ changes) t =
    let (u, out) = on_level_change c ts t in
    let (end, rest) = track_all changes u in (end, out ++ rest)

-- `old` and `now` are the sums of the old and the new quantities, and `out` are the events.
pub record IsAccount (old now : ℕ) (out : List AnalyticsEvent) (t : LiquidityTracker) : Type 0 where
  pub balance : (old + t.added_ticks) % u64_mod ≡ (now + t.removed_ticks) % u64_mod
  pub bids : All (IsLevel bid) t.levels.bids
  pub asks : All (IsLevel ask) t.levels.asks
  pub candidates : replenishments out % u64_mod ≡ t.replenishment_count % u64_mod

track_all-IsAccount :
    (changes : List (LevelChange × ℕ)) (old now : ℕ) (before : List AnalyticsEvent)
    (t : LiquidityTracker)
    → IsAccount old now before t
    → let (u, out) = track_all changes t in
      IsAccount (old + olds changes) (now + news changes) (before ++ out) u
unfolding track_all on_level_change
track_all-IsAccount [] old now before t v = record {
  balance = omega (arith, v.balance);
  bids = v.bids;
  asks = v.asks;
  candidates = omega (arith, v.candidates, replenishments-append before []);
}
track_all-IsAccount ((c, ts) ∷ changes) old now before t v =
    let (u, out) = on_level_change c ts t in
    let step =
      on_changed-Follows (classify c.old_qty c.new_qty) c ts t (classify-Says c.old_qty c.new_qty)
        (v.bids, v.asks) in
    let next : IsAccount (old + unwrap_or_zero c.old_qty) (now + c.new_qty) (before ++ out) u =
      record {
        balance = omega (arith, v.balance, step.added, step.removed, step.balance);
        bids = step.levels.0;
        asks = step.levels.1;
        candidates = omega (arith, v.candidates, step.counted, replenishments-append before out);
      } in
    let rest =
      track_all-IsAccount changes (old + unwrap_or_zero c.old_qty) (now + c.new_qty) (before ++ out)
        u next in
    let (end, later) = track_all changes u in
    record {
      balance = omega (arith, rest.balance);
      bids = rest.bids;
      asks = rest.asks;
      candidates = omega (
        arith,
        rest.candidates,
        replenishments-append (before ++ out) later,
        replenishments-append before out,
        replenishments-append out later,
        replenishments-append before (out ++ later),
      );
    }

-- From a new tracker, for any changes at any times: the old quantities and the liquidity added sum
-- to the new quantities and the liquidity removed, modulo 2^64; the record of each level carries its
-- side and its price, and its peak is at least its current quantity; and the count of
-- replenishments is that of the candidate events that were returned, modulo 2^64.
pub track_all-new-IsAccount :
    (changes : List (LevelChange × ℕ)) (window retention : ℕ)
    → let (t, out) = track_all changes (new window retention) in
      IsAccount (olds changes) (news changes) out t
unfolding new
track_all-new-IsAccount changes window retention =
    let v =
      track_all-IsAccount changes 0 0 [] (new window retention)
        (record { balance = refl; bids = tt; asks = tt; candidates = refl }) in
    record {
      balance = omega (arith, v.balance);
      bids = v.bids;
      asks = v.asks;
      candidates = v.candidates;
    }
