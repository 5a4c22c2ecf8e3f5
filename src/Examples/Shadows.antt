-- ===== src/Examples/Shadows.antt =====
-- The shadow book at a concrete update and a concrete snapshot.
use futures_orderbook.Prelude.{◌+◌, ◌≡◌, refl, List, [], ◌∷◌, none, some, ok, true, false, arith}
use futures_orderbook.TreeMap.{last_key, first_key}
use futures_orderbook.Binance.{DepthUpdate}
use futures_orderbook.Events.{Change}
use futures_orderbook.Level.{price_str_to_ticks, quantity_str_to_ticks}
use futures_orderbook.Level.Whole.{whole}
use futures_orderbook.Book.Apply.{apply_depth_update, each_level, update_sides}
use futures_orderbook.Analytics.Shadow.{
  bid, ShadowBook, apply_update, best_bid, best_ask, is_crossed, microprice, quantity_at,
}
use futures_orderbook.Analytics.Deltas.{shown, withdrawn, apply_update_deltas}
use futures_orderbook.Analytics.Micro.{Between, microprice-Between}
use futures_orderbook.Examples.Data.{book, bids-IsSide, asks-IsSide, quotes, ask_quotes, event}

abbrev pub shadow : ShadowBook
shadow = record {
  bids = book.bids;
  asks = book.asks;
  ready = true;
  last_update_id = some 10;
  crossed_count = 0;
  invalid_levels_rejected = 0;
}

abbrev pub update : DepthUpdate
update = event 11 20 10 quotes ask_quotes

pub accepted : (apply_depth_update whole quotes ask_quotes 20 book).1 ≡ ok tt
unfolding apply_depth_update update_sides each_level price_str_to_ticks quantity_str_to_ticks
accepted = refl

-- Twice at the best bid, which then goes.
abbrev changes : List Change
changes =
    record { price = 500_000_000; new_qty = 7; old_qty = none }
    ∷ record { price = 500_000_000; new_qty = 0; old_qty = none }
    ∷ []

apply_update_deltas_example :
    let (c, out) = apply_update changes [] 20 shadow in
    quantity_at bid 500_000_000 shadow + shown bid 500_000_000 out
    ≡ quantity_at bid 500_000_000 c + withdrawn bid 500_000_000 out
apply_update_deltas_example =
    apply_update_deltas bid 500_000_000 changes [] 20 shadow bids-IsSide.ordered asks-IsSide.ordered

shadow-best_bid : best_bid shadow ≡ some 500_000_000
unfolding best_bid last_key
shadow-best_bid = refl

shadow-best_ask : best_ask shadow ≡ some 700_000_000
unfolding best_ask first_key
shadow-best_ask = refl

shadow_uncrossed : is_crossed shadow ≡ false
unfolding is_crossed best_bid last_key best_ask first_key
shadow_uncrossed = refl

microprice-Between_example : Between 500_000_000 700_000_000 (microprice shadow)
microprice-Between_example =
    microprice-Between shadow 500_000_000 700_000_000 bids-IsSide asks-IsSide shadow-best_bid
      shadow-best_ask shadow_uncrossed refl (omega arith)
