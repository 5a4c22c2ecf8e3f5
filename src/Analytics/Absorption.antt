-- ===== src/Analytics/Absorption.antt =====
-- src/analytics/absorption.rs: windows of trades at a price that the book absorbs.
pub mod Expired
use futures_orderbook.Prelude.{
  ℕ, ◌-◌, ◌/◌, ◌%◌, ◌^◌, max, List, [], ◌∷◌, map, Bool, false, ◌&&◌, ◌||◌, Option, none, some, ◌==◌,
  ltb, leb, if◌then◌else◌,
}
use futures_orderbook.Prelude.Word.{add64}
use futures_orderbook.TreeMap.{TreeMap, get, insert, remove}
use futures_orderbook.Level.Floats.{F64}
use futures_orderbook.Trades.Trade.{AggressorSide, buy, sell, label, TradeEvent}
use futures_orderbook.Analytics.Config.{AnalyticsConfig, clamp_score}
use futures_orderbook.Analytics.Derived
use futures_orderbook.Analytics.Derived.{
  AnalyticsEvent, absorption_candidate, of_absorption, with_side, with_price, with_quantity,
  with_detail,
}

pub record AbsorptionWindow : Type 0 where
  pub price : ℕ
  pub side : AggressorSide
  pub open_ms : ℕ
  pub close_ms : ℕ
  pub reference_price : ℕ
  pub trade_count : ℕ
  pub aggressive_volume : ℕ
  pub max_favorable_displacement : ℕ
  pub opposing_liquidity_open : ℕ
  pub opposing_liquidity_close : ℕ
  pub replenished_volume : ℕ
  pub evaluated : Bool

pub record AbsorptionDetector (Float : Type 0) : Type 0 where
  pub cfg : AnalyticsConfig Float
  pub windows : TreeMap AbsorptionWindow
  pub count : ℕ

abbrev pub opened : TradeEvent → (best_price opposing_liquidity : ℕ) → AbsorptionWindow
opened trade best_price opposing_liquidity = record {
  price = trade.price_ticks;
  side = trade.aggressor;
  open_ms = trade.trade_time;
  close_ms = trade.trade_time;
  reference_price = best_price;
  trade_count = 1;
  aggressive_volume = trade.quantity_ticks;
  max_favorable_displacement = 0;
  opposing_liquidity_open = opposing_liquidity;
  opposing_liquidity_close = opposing_liquidity;
  replenished_volume = 0;
  evaluated = false;
}

-- How far the best price moved towards the aggressor.
abbrev pub displacement : AggressorSide → (best_price reference_price : ℕ) → ℕ
displacement buy best reference = best - reference
displacement sell best reference = reference - best

abbrev pub grown : TradeEvent → (best_price : ℕ) → AbsorptionWindow → AbsorptionWindow
grown trade best_price w = record w {
  trade_count = add64 w.trade_count 1;
  aggressive_volume = add64 w.aggressive_volume trade.quantity_ticks;
  max_favorable_displacement =
      max w.max_favorable_displacement (displacement trade.aggressor best_price w.reference_price);
  close_ms = trade.trade_time;
}

abbrev is_opposing : (price : ℕ) → AggressorSide → (reference_price : ℕ) → Bool
is_opposing price buy reference = ltb reference price
is_opposing price sell reference = ltb price reference

-- The windows that a change at a price is about: those within their time.
abbrev pub concerns : (price ts window_ms : ℕ) → AbsorptionWindow → Bool
concerns price ts window_ms w =
    is_opposing price w.side w.reference_price && leb (ts - w.open_ms) window_ms

abbrev pub each_window :
    (AbsorptionWindow → AbsorptionWindow) → TreeMap AbsorptionWindow → TreeMap AbsorptionWindow
each_window f = map (λ e. (e.0, f e.1))

module _ (fl : F64) where
  open fl use {Float, of_u64, mul, div, add, sub, lt, lit, json}

  unfoldable pub new : AnalyticsConfig Float → AbsorptionDetector Float
  new cfg = record { cfg = cfg; windows = []; count = 0 }

  unfoldable pub on_liquidity_change :
      (price delta_ticks ts : ℕ) → AbsorptionDetector Float → AbsorptionDetector Float
  on_liquidity_change price delta_ticks ts d = record d {
    windows =
        each_window
          (λ w.
            if concerns price ts d.cfg.absorption_window_ms w
            then record w { replenished_volume = add64 w.replenished_volume delta_ticks }
            else w)
          d.windows;
  }

  unfoldable pub on_opposing_liquidity :
      (price qty ts : ℕ) → AbsorptionDetector Float → AbsorptionDetector Float
  on_opposing_liquidity price qty ts d = record d {
    windows =
        each_window
          (λ w.
            if concerns price ts d.cfg.absorption_window_ms w
            then record w { opposing_liquidity_close = qty }
            else w)
          d.windows;
  }

  -- The displacement in units of the tick size.
  abbrev pub moved : AnalyticsConfig Float → AbsorptionWindow → ℕ
  moved cfg w = w.max_favorable_displacement / max cfg.tick_size_ticks 1

  -- The three gates.
  unfoldable pub rejected : AnalyticsConfig Float → AbsorptionWindow → Bool
  rejected cfg w =
      ltb (w.trade_count % 2 ^ 32) cfg.absorption_min_trades
      || ltb w.aggressive_volume cfg.absorption_min_volume_ticks
      || ltb (max cfg.absorption_max_excursion_ticks 1) (moved cfg w)

  -- A score by the ratio of two numbers, or another where the second is zero.
  abbrev pub ratio_or : Float → (part whole : ℕ) → Float
  ratio_or other part whole =
      if whole == 0 then other else clamp_score fl (div (of_u64 part) (of_u64 whole))

  unfoldable pub confidence : AnalyticsConfig Float → AbsorptionWindow → Float
  confidence cfg w =
      let volume_score =
        clamp_score fl
          (div (of_u64 w.aggressive_volume) (of_u64 cfg.absorption_min_volume_ticks)) in
      let excursion = max cfg.absorption_max_excursion_ticks 1 in
      let price_failure_score =
        sub (lit "1.0") (clamp_score fl (div (of_u64 (moved cfg w)) (of_u64 excursion))) in
      let replenishment_score =
        ratio_or (lit "0.0") w.replenished_volume
          (add64 w.replenished_volume w.aggressive_volume) in
      let persistence_score =
        ratio_or (lit "1.0") w.opposing_liquidity_close w.opposing_liquidity_open in
      add
        (add (add (mul (lit "0.30") volume_score) (mul (lit "0.35") price_failure_score))
          (mul (lit "0.20") replenishment_score))
        (mul (lit "0.15") persistence_score)

  unfoldable pub event_of : AnalyticsConfig Float → AbsorptionWindow → AnalyticsEvent
  event_of cfg w =
      let detail =
        of_absorption (json (confidence cfg w)) w.trade_count w.aggressive_volume
          w.max_favorable_displacement w.reference_price w.open_ms w.close_ms
          w.opposing_liquidity_open w.opposing_liquidity_close w.replenished_volume in
      with_detail detail (
        with_quantity w.aggressive_volume (
          with_price w.price
            (with_side (label w.side) (Derived.new absorption_candidate w.close_ms "BTCUSDT"))))

  unfoldable pub evaluate :
      AbsorptionWindow → AbsorptionDetector Float → AbsorptionDetector Float × Option AnalyticsEvent
  evaluate w d =
      if rejected d.cfg w
      then (d, none)
      else if lt (confidence d.cfg w) d.cfg.confidence_threshold
      then (d, none)
      else (record d { count = add64 d.count 1 }, some (event_of d.cfg w))

  -- The arms of the match on the window of the price.
  abbrev pub on_window :
      TradeEvent
      → (best_price opposing_liquidity : ℕ) → Option AbsorptionWindow
      → AbsorptionDetector Float
      → AbsorptionDetector Float × Option AnalyticsEvent
  on_window trade best opposing none d =
      (record d { windows = insert trade.price_ticks (opened trade best opposing) d.windows }, none)
  on_window trade best opposing (some w) d =
      if ltb d.cfg.absorption_window_ms (trade.trade_time - w.open_ms)
      then evaluate w (record d { windows = remove trade.price_ticks d.windows })
      else (record d { windows = insert trade.price_ticks (grown trade best w) d.windows }, none)

  unfoldable pub on_trade :
      TradeEvent
      → (best_price opposing_liquidity : ℕ) → AbsorptionDetector Float
      → AbsorptionDetector Float × Option AnalyticsEvent
  on_trade trade best opposing d = on_window trade best opposing (get trade.price_ticks d.windows) d

  abbrev pub push : Option AnalyticsEvent → List AnalyticsEvent → List AnalyticsEvent
  push none out = out
  push (some e) out = e ∷ out

  abbrev flush_keys :
      TreeMap AbsorptionWindow
      → AbsorptionDetector Float
      → AbsorptionDetector Float × List AnalyticsEvent
  flush_keys [] d = (d, [])
  flush_keys ((k, w) ∷ m) d =
      let (next, e) = evaluate w (record d { windows = remove k d.windows }) in
      let (end, out) = flush_keys m next in (end, push e out)

  -- The keys are those of the map, so that each is there when its turn comes.
  unfoldable pub flush : AbsorptionDetector Float → AbsorptionDetector Float × List AnalyticsEvent
  flush d = flush_keys d.windows d
