-- ===== src/Analytics/Clusters/Volume.antt =====
-- Clustering loses no volume and counts none twice, and what a cluster says of itself agrees.
use futures_orderbook.Prelude.{
  ℕ, ◌+◌, ◌≤◌, ◌<◌, ◌≡◌, refl, List, [], ◌∷◌, true, Option, none, some, All, All-append, All-imp,
  arith, if-elim, subst,
}
use futures_orderbook.Prelude.Word.{u64_mod, add128}
use futures_orderbook.Level.Floats.{F64}
use futures_orderbook.Trades.Trade.{AggressorSide, buy, sell, TradeEvent}
use futures_orderbook.Analytics.Clusters.{
  TradeCluster, ClusterTracker, new, fits, add_buy, add_sell, add_delta, opened, grow, push_closed,
  grow_open, on_trade,
}

-- The prices lie in the cluster's range, the volume is that of the two sides, the delta is their
-- difference, and no trade in it is larger than it.
pub record IsCluster {Float : Type 0} (m : ℕ) (c : TradeCluster Float) : Type 0 where
  pub first_in : (c.low ≤ c.first_price) × (c.first_price ≤ c.high)
  pub last_in : (c.low ≤ c.last_price) × (c.last_price ≤ c.high)
  pub volume : c.buy_volume + c.sell_volume ≡ c.total_volume
  pub delta : add128 c.delta c.sell_volume ≡ c.buy_volume
  pub largest : c.largest_trade_quantity ≤ c.total_volume
  pub within : c.total_volume ≤ m

abbrev pub volumes : {Float : Type 0} → List (TradeCluster Float) → ℕ
volumes [] = 0
volumes (c ∷ cs) = c.total_volume + volumes cs

abbrev pub current_volume : {Float : Type 0} → Option (TradeCluster Float) → ℕ
current_volume none = 0
current_volume (some c) = c.total_volume

abbrev pub IsCurrent : {Float : Type 0} → ℕ → Option (TradeCluster Float) → Type 0
IsCurrent m none = Unit
IsCurrent m (some c) = IsCluster m c

-- `m` is the volume of the trades so far.
pub record IsTracked {Float : Type 0} (m : ℕ) (t : ClusterTracker Float) : Type 0 where
  pub clusters : All (IsCluster m) t.closed
  pub now : IsCurrent m t.current
  pub balance : volumes t.closed + current_volume t.current ≡ m

pub add_sides :
    (side : AggressorSide) (qty b s d : ℕ)
    → b + s + qty < u64_mod
    → add128 d s ≡ b
    → (add_buy side qty b + add_sell side qty s ≡ b + s + qty)
      × (add128 (add_delta side qty d) (add_sell side qty s) ≡ add_buy side qty b)
add_sides buy qty b s d h e = (omega arith, omega (arith, e))
add_sides sell qty b s d h e = (omega arith, omega (arith, e))

module _ (fl : F64) where
  grow-IsCluster :
      (trade : TradeEvent) (m : ℕ) (c : TradeCluster fl.Float)
      → m + trade.quantity_ticks < u64_mod
      → IsCluster m c
      → IsCluster (m + trade.quantity_ticks) (grow fl trade c)
        × ((grow fl trade c).total_volume ≡ c.total_volume + trade.quantity_ticks)
  unfolding grow
  grow-IsCluster trade m c room v =
      let (volume, delta) =
        add_sides trade.aggressor trade.quantity_ticks c.buy_volume c.sell_volume c.delta
          (omega (arith, v.volume, v.within)) v.delta in
      (
        record {
          first_in = (omega (arith, v.first_in), omega (arith, v.first_in));
          last_in = (omega arith, omega arith);
          volume = omega (arith, volume, v.volume, v.within);
          delta = delta;
          largest = omega (arith, v.largest, v.within);
          within = omega (arith, v.within);
        },
        omega (arith, v.within),
      )

  opened-IsCluster : (trade : TradeEvent) (m : ℕ) → IsCluster m (opened fl trade)
  opened-IsCluster trade m = record {
    first_in = (omega arith, omega arith);
    last_in = (omega arith, omega arith);
    volume = refl;
    delta = refl;
    largest = omega arith;
    within = omega arith;
  }

IsCluster-mono :
    {Float : Type 0} (m n : ℕ) (c : TradeCluster Float) → m ≤ n → IsCluster m c → IsCluster n c
IsCluster-mono m n c h v = record {
  first_in = v.first_in;
  last_in = v.last_in;
  volume = v.volume;
  delta = v.delta;
  largest = v.largest;
  within = omega (arith, v.within);
}

module _ (fl : F64) where
  volumes-push :
      (o : Option (TradeCluster fl.Float)) (cs : List (TradeCluster fl.Float))
      → volumes (push_closed fl o cs) ≡ volumes cs + current_volume o
  volumes-push none cs = omega arith
  volumes-push (some c) [] = omega arith
  volumes-push (some c) (d ∷ cs) = omega (arith, volumes-push (some c) cs)

  push-All :
      (m : ℕ) (o : Option (TradeCluster fl.Float)) (cs : List (TradeCluster fl.Float))
      → IsCurrent m o
      → All (IsCluster m) cs
      → All (IsCluster m) (push_closed fl o cs)
  push-All m none cs h a = a
  push-All m (some c) cs h a = All-append (IsCluster m) cs (c ∷ []) a (h, tt)

  grow_open-IsTracked :
      (trade : TradeEvent) (m : ℕ) (o : Option (TradeCluster fl.Float))
      → m + trade.quantity_ticks < u64_mod
      → IsCurrent m o
      → ((c : TradeCluster fl.Float) × (o ≡ some c))
      → IsCurrent (m + trade.quantity_ticks) (grow_open fl trade o)
        × (current_volume (grow_open fl trade o) ≡ current_volume o + trade.quantity_ticks)
  grow_open-IsTracked trade m none room h (c, e) = cc
  grow_open-IsTracked trade m (some d) room h e = grow-IsCluster fl trade m d room h

  fits-some :
      (trade : TradeEvent) (t : ClusterTracker fl.Float)
      → fits trade t ≡ true
      → (c : TradeCluster fl.Float) × (t.current ≡ some c)
  unfolding fits
  fits-some trade t h = held t.current refl
    where
      held :
          (o : Option (TradeCluster fl.Float))
          → t.current ≡ o
          → (c : TradeCluster fl.Float) × (t.current ≡ some c)
      held none e = let f = rw e at h in cc
      held (some c) e = (c, e)

  IsTracked-closed :
      (m n : ℕ) (t : ClusterTracker fl.Float) → m ≤ n → IsTracked m t → All (IsCluster n) t.closed
  IsTracked-closed m n t h v =
      All-imp (IsCluster m) (IsCluster n) (λ c. IsCluster-mono m n c h) t.closed v.clusters

  on_trade-IsTracked :
      (trade : TradeEvent) (m : ℕ) (t : ClusterTracker fl.Float)
      → m + trade.quantity_ticks < u64_mod
      → IsTracked m t
      → IsTracked (m + trade.quantity_ticks) (on_trade fl trade t).0
  unfolding on_trade
  on_trade-IsTracked trade m t room v =
      let n = m + trade.quantity_ticks in
      if-elim (λ (r : ClusterTracker fl.Float × Option (TradeCluster fl.Float)). IsTracked n r.0)
        (fits trade t) _ _
        (λ fit.
          let (now, volume) =
            grow_open-IsTracked trade m t.current room v.now (fits-some trade t fit) in
          record {
            clusters = IsTracked-closed m n t (omega arith) v;
            now = now;
            balance = omega (arith, volume, v.balance);
          })
        (λ _.
          let (now, volume) =
            grow-IsCluster fl trade m (opened fl trade) room (opened-IsCluster fl trade m) in
          record {
            clusters =
                All-imp (IsCluster m) (IsCluster n) (λ c. IsCluster-mono m n c (omega arith)) _
                  (push-All m t.current t.closed v.now v.clusters);
            now = now;
            balance = omega (arith, volume, v.balance, volumes-push t.current t.closed);
          })

abbrev pub quantities : List TradeEvent → ℕ
quantities [] = 0
quantities (trade ∷ trades) = trade.quantity_ticks + quantities trades

module _ (fl : F64) where
  unfoldable pub cluster_all : List TradeEvent → ClusterTracker fl.Float → ClusterTracker fl.Float
  cluster_all [] t = t
  cluster_all (trade ∷ trades) t = cluster_all trades (on_trade fl trade t).0

  cluster_all-IsTracked :
      (trades : List TradeEvent) (m : ℕ) (t : ClusterTracker fl.Float)
      → m + quantities trades < u64_mod
      → IsTracked m t
      → IsTracked (m + quantities trades) (cluster_all trades t)
  unfolding cluster_all
  cluster_all-IsTracked [] m t room v =
      let e : m ≡ m + 0 = omega arith in subst (λ n. IsTracked n t) e v
  cluster_all-IsTracked (trade ∷ trades) m t room v =
      let w =
        cluster_all-IsTracked trades (m + trade.quantity_ticks) (on_trade fl trade t).0
          (omega arith) (on_trade-IsTracked fl trade m t (omega arith) v) in
      let e : m + trade.quantity_ticks + quantities trades
          ≡ m + (trade.quantity_ticks + quantities trades) =
        omega arith in
      subst (λ n. IsTracked n (cluster_all (trade ∷ trades) t)) e w

  -- From a new tracker and any trades whose quantities sum to less than 2^64, whatever the window
  -- and the price range: the volumes of the closed clusters and of the open one sum to that of the
  -- trades, and in each cluster the first and the last price lie in its range, the volume is that of
  -- the two sides, the delta is their difference and no trade is larger than the volume.
  pub cluster_all_balances :
      (window_ms range_ticks tick_size retention_ms : ℕ) (trades : List TradeEvent)
      → quantities trades < u64_mod
      → IsTracked
          (quantities trades)
          (cluster_all trades (new window_ms range_ticks tick_size retention_ms))
  unfolding new
  cluster_all_balances w r k d trades few =
      let start : ClusterTracker fl.Float = new w r k d in
      let e : 0 + quantities trades ≡ quantities trades = omega arith in
      subst (λ n. IsTracked n (cluster_all trades start)) e
        (cluster_all-IsTracked trades 0 start (omega arith)
          (record { clusters = tt; now = tt; balance = refl }))
