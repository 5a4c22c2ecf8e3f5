-- ===== src/Analytics/Engine/Ledger.antt =====
-- The counters of an interval and of the session, and what a list of snapshots says of them.
use futures_orderbook.Prelude.{
  ℕ, ◌+◌, ◌%◌, ◌≤◌, ◌≡◌, refl, List, [], ◌∷◌, ◌++◌, Option, none, some, max, arith,
}
use futures_orderbook.Prelude.Word.{u64_mod, word128_mod}
use futures_orderbook.Analytics.Snapshot.{MarketMicrostructureSnapshot}
use futures_orderbook.Analytics.Engine.{AnalyticsEngine}

pub record Ledger : Type 0 where
  pub volume : ℕ
  pub bought : ℕ
  pub sold : ℕ
  pub delta : ℕ
  pub large : ℕ
  pub swept : ℕ
  pub absorbed : ℕ
  pub filled : ℕ
  pub all_bought : ℕ
  pub all_sold : ℕ
  pub cvd : ℕ
  pub all_large : ℕ
  pub all_swept : ℕ
  pub all_absorbed : ℕ
  pub all_filled : ℕ
  pub interval : ℕ
  pub last : Option ℕ

-- Two numbers that are the same `u64`, or `i128`.
abbrev pub Same64 : ℕ → ℕ → Type 0
Same64 a b = a % u64_mod ≡ b % u64_mod

abbrev pub Same128 : ℕ → ℕ → Type 0
Same128 a b = a % word128_mod ≡ b % word128_mod

abbrev pub Snaps : Type 0 → Type 0
Snaps Float = List (MarketMicrostructureSnapshot Float)

-- How the time of a new snapshot stands to that of the last one.
abbrev pub Later : (interval ts : ℕ) → Option ℕ → Type 0
Later interval ts none = Unit
Later interval ts (some last) = last + interval ≤ ts

module _ {Float : Type 0} where
  abbrev pub ledger : AnalyticsEngine Float → Ledger
  ledger e = record {
    volume = e.trade_volume;
    bought = e.buy_volume;
    sold = e.sell_volume;
    delta = e.delta;
    large = e.large_trade_count;
    swept = e.sweep_candidate_count;
    absorbed = e.absorption_candidate_count;
    filled = e.replenishment_count;
    all_bought = e.flow.totals.buy_volume;
    all_sold = e.flow.totals.sell_volume;
    cvd = e.flow.totals.cvd;
    all_large = e.large_trades.count;
    all_swept = e.sweeps.count;
    all_absorbed = e.absorption.count;
    all_filled = e.liquidity.replenishment_count;
    interval = max e.cfg.snapshot_interval_ms 1;
    last = e.last_snapshot_ts;
  }

  abbrev pub total : (MarketMicrostructureSnapshot Float → ℕ) → Snaps Float → ℕ
  total f [] = 0
  total f (s ∷ ss) = f s + total f ss

  pub total-push :
      (f : MarketMicrostructureSnapshot Float → ℕ) (ss : Snaps Float)
      (s : MarketMicrostructureSnapshot Float)
      → total f (ss ++ s ∷ []) ≡ total f ss + f s
  total-push f [] s = omega arith
  total-push f (x ∷ ss) s = omega (arith, total-push f ss s)

  -- The cumulative delta of each snapshot is `before` and the deltas of the snapshots up to it.
  abbrev pub Runs : (before : ℕ) → Snaps Float → Type 0
  Runs before [] = Unit
  Runs before (s ∷ ss) = Same128 s.cvd (before + s.delta) × Runs (before + s.delta) ss

  pub Runs-push :
      (before : ℕ) (ss : Snaps Float) (s : MarketMicrostructureSnapshot Float)
      → Runs before ss
      → Same128 s.cvd (before + total (λ x. x.delta) ss + s.delta)
      → Runs before (ss ++ s ∷ [])
  Runs-push before [] s h e = (omega (arith, e), tt)
  Runs-push before (x ∷ ss) s h e = (h.0, Runs-push (before + x.delta) ss s h.1 (omega (arith, e)))

  abbrev pub After : (interval ts : ℕ) → Snaps Float → Type 0
  After interval ts [] = Unit
  After interval ts (s ∷ ss) = ts + interval ≤ s.timestamp_ms

  -- Each snapshot is at least an interval after the one before it.
  abbrev pub Spaced : (interval : ℕ) → Snaps Float → Type 0
  Spaced interval [] = Unit
  Spaced interval (s ∷ ss) = After interval s.timestamp_ms ss × Spaced interval ss

  abbrev pub last_ts : Snaps Float → Option ℕ
  last_ts [] = none
  last_ts (s ∷ []) = some s.timestamp_ms
  last_ts (s ∷ x ∷ ss) = last_ts (x ∷ ss)

  pub last_ts-push :
      (ss : Snaps Float) (s : MarketMicrostructureSnapshot Float)
      → last_ts (ss ++ s ∷ []) ≡ some s.timestamp_ms
  last_ts-push [] s = refl
  last_ts-push (x ∷ []) s = refl
  last_ts-push (x ∷ y ∷ ss) s = last_ts-push (y ∷ ss) s

  pub Spaced-push :
      (interval : ℕ) (ss : Snaps Float) (s : MarketMicrostructureSnapshot Float)
      → Spaced interval ss
      → Later interval s.timestamp_ms (last_ts ss)
      → Spaced interval (ss ++ s ∷ [])
  Spaced-push interval [] s h l = (tt, tt)
  Spaced-push interval (x ∷ []) s h l = (l, (tt, tt))
  Spaced-push interval (x ∷ y ∷ ss) s h l = (h.0, Spaced-push interval (y ∷ ss) s h.1 l)

  -- The snapshots and the counters of the running interval add up to the session; word by word.
  pub record IsHistory (ss : Snaps Float) (l : Ledger) : Type 0 where
    pub volume : Same64 (total (λ s. s.trade_volume) ss + l.volume) (l.all_bought + l.all_sold)
    pub bought : Same64 (total (λ s. s.buy_volume) ss + l.bought) l.all_bought
    pub sold : Same64 (total (λ s. s.sell_volume) ss + l.sold) l.all_sold
    pub delta : Same128 (total (λ s. s.delta) ss + l.delta) l.cvd
    pub large : Same64 (total (λ s. s.large_trade_count) ss + l.large) l.all_large
    pub swept : Same64 (total (λ s. s.sweep_candidate_count) ss + l.swept) l.all_swept
    pub absorbed : Same64 (total (λ s. s.absorption_candidate_count) ss + l.absorbed) l.all_absorbed
    pub filled : Same64 (total (λ s. s.replenishment_count) ss + l.filled) l.all_filled
    pub cvd : Runs 0 ss
    pub spaced : Spaced l.interval ss
    pub last : last_ts ss ≡ l.last

  -- One of the four counts of events, and the session's.
  module _ (ss : Snaps Float) (l : Ledger) (h : IsHistory ss l) (x y : ℕ) where
    pub with_large :
        Same64 (total (λ s. s.large_trade_count) ss + x) y
        → IsHistory ss (record l { large = x; all_large = y })
    with_large same = record {
      volume = h.volume;
      bought = h.bought;
      sold = h.sold;
      delta = h.delta;
      large = same;
      swept = h.swept;
      absorbed = h.absorbed;
      filled = h.filled;
      cvd = h.cvd;
      spaced = h.spaced;
      last = h.last;
    }

    pub with_swept :
        Same64 (total (λ s. s.sweep_candidate_count) ss + x) y
        → IsHistory ss (record l { swept = x; all_swept = y })
    with_swept same = record {
      volume = h.volume;
      bought = h.bought;
      sold = h.sold;
      delta = h.delta;
      large = h.large;
      swept = same;
      absorbed = h.absorbed;
      filled = h.filled;
      cvd = h.cvd;
      spaced = h.spaced;
      last = h.last;
    }

    pub with_absorbed :
        Same64 (total (λ s. s.absorption_candidate_count) ss + x) y
        → IsHistory ss (record l { absorbed = x; all_absorbed = y })
    with_absorbed same = record {
      volume = h.volume;
      bought = h.bought;
      sold = h.sold;
      delta = h.delta;
      large = h.large;
      swept = h.swept;
      absorbed = same;
      filled = h.filled;
      cvd = h.cvd;
      spaced = h.spaced;
      last = h.last;
    }

    pub with_filled :
        Same64 (total (λ s. s.replenishment_count) ss + x) y
        → IsHistory ss (record l { filled = x; all_filled = y })
    with_filled same = record {
      volume = h.volume;
      bought = h.bought;
      sold = h.sold;
      delta = h.delta;
      large = h.large;
      swept = h.swept;
      absorbed = h.absorbed;
      filled = same;
      cvd = h.cvd;
      spaced = h.spaced;
      last = h.last;
    }
