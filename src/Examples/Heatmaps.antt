-- ===== src/Examples/Heatmaps.antt =====
-- The heatmap and the liquidity tracker at concrete histories.
use futures_orderbook.Prelude.{ℕ, none, List, [], ◌∷◌, some, ◌≡◌, arith}
use futures_orderbook.Analytics.Shadow.{LevelChange, bid, ask}
use futures_orderbook.Analytics.Flow.{new as new_flow}
use futures_orderbook.Analytics.Liquidity.{new as new_tracker}
use futures_orderbook.Analytics.Liquidity.Account.{
  IsAccount, track_all, olds, news, track_all-new-IsAccount,
}
use futures_orderbook.Analytics.Heatmap.{new}
use futures_orderbook.Analytics.Heatmap.Digest.{digest}
use futures_orderbook.Analytics.Heatmap.Frame.{HeatmapFrame, from_heatmap}
use futures_orderbook.Analytics.Heatmap.Patch.{by_price, compute}
use futures_orderbook.Analytics.Heatmap.Patch.Applied.{patch, patch-compute}
use futures_orderbook.Analytics.Heatmap.Calls.{
  Call, trade, large, level, sweep, absorption, replenishment, feed_all, flow_all,
}
use futures_orderbook.Analytics.Heatmap.Agree.{Agrees, digest-Agrees}
use futures_orderbook.Analytics.Heatmap.Shape.{
  IsShaped, Move, feeds, prunes, move_all, move_all-new-IsShaped,
}
use futures_orderbook.Examples.Data.{trade_of}

abbrev change : LevelChange
change = record { side = bid; price = 500_000_000; old_qty = some 5; new_qty = 3 }

abbrev calls : List Call
calls =
    trade (trade_of 7)
    ∷ large (trade_of 7)
    ∷ level change 1500
    ∷ sweep 500_000_000 2100
    ∷ absorption 600_000_000 2200
    ∷ replenishment 500_000_000 2300
    ∷ trade (trade_of 8)
    ∷ []

digest-Agrees_example :
    Agrees calls
      (digest (feed_all calls (new 1000 60000)))
      (flow_all calls (new_flow (100 ∷ []) 60000)).totals
digest-Agrees_example =
    digest-Agrees calls 1000 60000 60000 (100 ∷ []) (omega arith) (omega arith, tt)
      (omega arith, (tt, (tt, (tt, (tt, (tt, (omega arith, tt)))))))

abbrev moves : List Move
moves =
    feeds (trade (trade_of 7))
    ∷ feeds (level change 90_000)
    ∷ prunes 95_000
    ∷ feeds (sweep 5 95_100)
    ∷ []

move_all-new-IsShaped_example : IsShaped (move_all moves (new 1000 60000))
move_all-new-IsShaped_example = move_all-new-IsShaped moves 1000 60000

abbrev before : HeatmapFrame
before = from_heatmap (feed_all (trade (trade_of 7) ∷ []) (new 1000 60000)) 2000 0 900_000_000

abbrev now : HeatmapFrame
now = from_heatmap (feed_all calls (new 1000 60000)) 3000 550_000_000 900_000_000

patch-compute_example : patch (compute before now) (by_price before) ≡ by_price now
patch-compute_example = patch-compute before now

-- A level appears, shrinks, is filled again in time, and goes.
abbrev changes : List (LevelChange × ℕ)
changes =
    (record { side = bid; price = 500; old_qty = none; new_qty = 10 }, 1000)
    ∷ (record { side = bid; price = 500; old_qty = some 10; new_qty = 2 }, 1100)
    ∷ (record { side = bid; price = 500; old_qty = some 2; new_qty = 9 }, 1200)
    ∷ (record { side = bid; price = 500; old_qty = some 9; new_qty = 0 }, 1300)
    ∷ (record { side = ask; price = 700; old_qty = none; new_qty = 0 }, 1300)
    ∷ []

track_all-new-IsAccount_example :
    let (t, out) = track_all changes (new_tracker 250 60000) in
    IsAccount (olds changes) (news changes) out t
track_all-new-IsAccount_example = track_all-new-IsAccount changes 250 60000
