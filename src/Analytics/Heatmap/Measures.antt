-- ===== src/Analytics/Heatmap/Measures.antt =====
-- What each call adds to the measures of the cells that the digest sums.
use futures_orderbook.Prelude.{ℕ, ◌+◌, ◌-◌, ◌%◌, ◌<◌, ◌≡◌, refl, ap, arith}
use futures_orderbook.Prelude.Word.{u64_mod, word128_mod}
use futures_orderbook.Trades.Trade.{AggressorSide, buy, sell, TradeEvent}
use futures_orderbook.Analytics.Shadow.{BookSide, bid, ask}
use futures_orderbook.Analytics.Clusters.{add_buy, add_sell, add_delta}
use futures_orderbook.Analytics.Heatmap.{
  HeatmapCell, add_trade, add_large, set_resting, count_sweep, count_absorption,
  count_replenishment,
}
use futures_orderbook.Analytics.Heatmap.Calls.{
  Call, trade, large, level, sweep, absorption, replenishment,
}
use futures_orderbook.Analytics.Heatmap.Counted.{Adds}

-- What a trade adds to each measure, up to multiples of 2^64 and of 2^128.
abbrev pub bought_by : AggressorSide → ℕ → ℕ
bought_by buy qty = qty
bought_by sell qty = 0

abbrev pub sold_by : AggressorSide → ℕ → ℕ
sold_by buy qty = 0
sold_by sell qty = qty

abbrev pub net_of : AggressorSide → ℕ → ℕ
net_of buy qty = qty
net_of sell qty = word128_mod - qty

abbrev pub one_by : AggressorSide → ℕ → ℕ
one_by side qty = 1

abbrev pub trade_amount : (AggressorSide → ℕ → ℕ) → Call → ℕ
trade_amount by (trade t) = by t.aggressor t.quantity_ticks
trade_amount by _ = 0

pub add_buy_by :
    (side : AggressorSide) (qty v : ℕ)
    → add_buy side qty v % u64_mod ≡ (v + bought_by side qty) % u64_mod
add_buy_by buy qty v = omega arith
add_buy_by sell qty v = omega arith

pub add_sell_by :
    (side : AggressorSide) (qty v : ℕ)
    → add_sell side qty v % u64_mod ≡ (v + sold_by side qty) % u64_mod
add_sell_by buy qty v = omega arith
add_sell_by sell qty v = omega arith

pub add_delta_by :
    (side : AggressorSide) (qty d : ℕ)
    → qty < u64_mod
    → add_delta side qty d % word128_mod ≡ (d + net_of side qty) % word128_mod
add_delta_by buy qty d w = omega arith
add_delta_by sell qty d w = omega (arith, w)

-- The calls other than `on_trade` leave the measure alone.
pub record IsOfTrades (measure : HeatmapCell → ℕ) : Type 0 where
  pub level :
      (side : BookSide) (new : ℕ) (c : HeatmapCell) → measure (set_resting side new c) ≡ measure c
  pub large : (t : TradeEvent) (c : HeatmapCell) → measure (add_large t c) ≡ measure c
  pub sweep : (c : HeatmapCell) → measure (count_sweep c) ≡ measure c
  pub absorption : (c : HeatmapCell) → measure (count_absorption c) ≡ measure c
  pub replenishment : (c : HeatmapCell) → measure (count_replenishment c) ≡ measure c

pub trade_amount-Adds :
    (m : ℕ) (measure : HeatmapCell → ℕ) (by : AggressorSide → ℕ → ℕ)
    → IsOfTrades measure
    → ((t : TradeEvent) (c : HeatmapCell)
        → t.quantity_ticks < u64_mod
        → measure (add_trade t c) % m ≡ (measure c + by t.aggressor t.quantity_ticks) % m)
    → Adds m measure (trade_amount by)
trade_amount-Adds m measure by of h = added
  where
    same : (a b : ℕ) → a ≡ b → a % m ≡ (b + 0) % m
    same a b e = let f : a ≡ b + 0 = omega (arith, e) in ap (λ n. n % m) f

    added : Adds m measure (trade_amount by)
    added (trade t) c w = h t c w
    added (large t) c w = same _ _ (of.large t c)
    added (level change ts) c w = same _ _ (of.level change.side change.new_qty c)
    added (sweep price ts) c w = same _ _ (of.sweep c)
    added (absorption price ts) c w = same _ _ (of.absorption c)
    added (replenishment price ts) c w = same _ _ (of.replenishment c)

executed_buy_volume-IsOfTrades : IsOfTrades (λ c. c.executed_buy_volume)
unfolding set_resting add_large count_sweep count_absorption count_replenishment
executed_buy_volume-IsOfTrades = record {
  level = λ side new c. elim side [ bid ↦ ground arith | ask ↦ ground arith ];
  large = λ t c. refl;
  sweep = λ c. refl;
  absorption = λ c. refl;
  replenishment = λ c. refl;
}

executed_sell_volume-IsOfTrades : IsOfTrades (λ c. c.executed_sell_volume)
unfolding set_resting add_large count_sweep count_absorption count_replenishment
executed_sell_volume-IsOfTrades = record {
  level = λ side new c. elim side [ bid ↦ ground arith | ask ↦ ground arith ];
  large = λ t c. refl;
  sweep = λ c. refl;
  absorption = λ c. refl;
  replenishment = λ c. refl;
}

trade_count-IsOfTrades : IsOfTrades (λ c. c.trade_count)
unfolding set_resting add_large count_sweep count_absorption count_replenishment
trade_count-IsOfTrades = record {
  level = λ side new c. elim side [ bid ↦ ground arith | ask ↦ ground arith ];
  large = λ t c. refl;
  sweep = λ c. refl;
  absorption = λ c. refl;
  replenishment = λ c. refl;
}

delta-IsOfTrades : IsOfTrades (λ c. c.delta)
unfolding set_resting add_large count_sweep count_absorption count_replenishment
delta-IsOfTrades = record {
  level = λ side new c. elim side [ bid ↦ ground arith | ask ↦ ground arith ];
  large = λ t c. refl;
  sweep = λ c. refl;
  absorption = λ c. refl;
  replenishment = λ c. refl;
}

pressure-IsOfTrades : IsOfTrades (λ c. c.pressure)
unfolding set_resting add_large count_sweep count_absorption count_replenishment
pressure-IsOfTrades = record {
  level = λ side new c. elim side [ bid ↦ ground arith | ask ↦ ground arith ];
  large = λ t c. refl;
  sweep = λ c. refl;
  absorption = λ c. refl;
  replenishment = λ c. refl;
}

pub executed_buy_volume-Adds : Adds u64_mod (λ c. c.executed_buy_volume) (trade_amount bought_by)
unfolding add_trade
executed_buy_volume-Adds =
    trade_amount-Adds u64_mod (λ c. c.executed_buy_volume) bought_by executed_buy_volume-IsOfTrades
      (λ t c w. add_buy_by t.aggressor t.quantity_ticks c.executed_buy_volume)

pub executed_sell_volume-Adds : Adds u64_mod (λ c. c.executed_sell_volume) (trade_amount sold_by)
unfolding add_trade
executed_sell_volume-Adds =
    trade_amount-Adds u64_mod (λ c. c.executed_sell_volume) sold_by executed_sell_volume-IsOfTrades
      (λ t c w. add_sell_by t.aggressor t.quantity_ticks c.executed_sell_volume)

pub trade_count-Adds : Adds u64_mod (λ c. c.trade_count) (trade_amount one_by)
unfolding add_trade
trade_count-Adds =
    trade_amount-Adds u64_mod (λ c. c.trade_count) one_by trade_count-IsOfTrades
      (λ t c w. omega arith)

pub delta-Adds : Adds word128_mod (λ c. c.delta) (trade_amount net_of)
unfolding add_trade
delta-Adds =
    trade_amount-Adds word128_mod (λ c. c.delta) net_of delta-IsOfTrades
      (λ t c w. add_delta_by t.aggressor t.quantity_ticks c.delta w)

pub pressure-Adds : Adds word128_mod (λ c. c.pressure) (trade_amount net_of)
unfolding add_trade
pressure-Adds =
    trade_amount-Adds word128_mod (λ c. c.pressure) net_of pressure-IsOfTrades
      (λ t c w. add_delta_by t.aggressor t.quantity_ticks c.pressure w)
