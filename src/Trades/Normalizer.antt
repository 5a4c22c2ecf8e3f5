-- ===== src/Trades/Normalizer.antt =====
-- src/trades/normalizer.rs, and the raw trade of src/binance/trade_types.rs. The wall clock is an
-- argument. The message of a parse error is kept as its parts: what is invalid, its text, the error.
use text.Mathlib.Text.{◌==◌ as str_eq}
use futures_orderbook.Prelude.{
  ℕ, ◌<◌, ◌≡◌, refl, String, Bool, true, false, ◌||◌, Bool-cases, if◌then◌else◌, Result-cases, ok,
  err, ◌⊎◌, inl, inr,
}
use futures_orderbook.Prelude.Word.{u64_mod}
use futures_orderbook.Error.{AnyError}
use futures_orderbook.Level.{
  price_str_to_ticks, quantity_str_to_ticks, price_str_to_ticks-lt, quantity_str_to_ticks-lt,
}
use futures_orderbook.Level.Floats.{F64}
use futures_orderbook.Trades.Trade.{TradeEvent, from_buyer_maker}

pub record FuturesTrade : Type 0 where
  pub event_type : String
  pub event_time : ℕ
  pub trade_time : ℕ
  pub symbol : String
  pub trade_id : ℕ
  pub price : String
  pub quantity : String
  pub order_type : String
  pub is_buyer_maker : Bool
  pub trade_type : ℕ

pub data NormalizeResult : Type 0 where
  normalized : TradeEvent → NormalizeResult
  marker_event : FuturesTrade → NormalizeResult
  parse_error : String → String → AnyError → NormalizeResult

unfoldable pub is_marker_event : FuturesTrade → Bool
is_marker_event trade =
    str_eq trade.price "0"
    || str_eq trade.price "0.0"
    || str_eq trade.price "0.00"
    || str_eq trade.quantity "0"
    || str_eq trade.quantity "0.0"
    || str_eq trade.quantity "0.00"
    || str_eq trade.order_type "NA"

abbrev event_of : FuturesTrade → ℕ → ℕ → ℕ → TradeEvent
event_of trade price_ticks quantity_ticks now_ns = record {
  symbol = trade.symbol;
  trade_id = trade.trade_id;
  price_ticks = price_ticks;
  quantity_ticks = quantity_ticks;
  event_time = trade.event_time;
  trade_time = trade.trade_time;
  local_receive_time_ns = now_ns;
  aggressor = from_buyer_maker trade.is_buyer_maker;
  order_type = trade.order_type;
}

unfoldable pub normalize_trade : F64 → ℕ → FuturesTrade → NormalizeResult
normalize_trade fl now_ns trade =
    if is_marker_event trade then marker_event trade else elim (price_str_to_ticks fl trade.price) [
      | err e ↦ parse_error "invalid price" trade.price e
      | ok price_ticks ↦ elim (quantity_str_to_ticks fl trade.quantity) [
        | err e ↦ parse_error "invalid quantity" trade.quantity e
        | ok quantity_ticks ↦ normalized (event_of trade price_ticks quantity_ticks now_ns)
      ]
    ]

-- What a normalised event is.
pub record IsNormalized (fl : F64) (trade : FuturesTrade) (event : TradeEvent) : Type 0 where
  pub real : is_marker_event trade ≡ false
  pub price : price_str_to_ticks fl trade.price ≡ ok event.price_ticks
  pub quantity : quantity_str_to_ticks fl trade.quantity ≡ ok event.quantity_ticks
  pub price_fits : event.price_ticks < u64_mod
  pub quantity_fits : event.quantity_ticks < u64_mod
  pub symbol : event.symbol ≡ trade.symbol
  pub sent : event.event_time ≡ trade.event_time
  pub id : event.trade_id ≡ trade.trade_id
  pub time : event.trade_time ≡ trade.trade_time
  pub kind : event.order_type ≡ trade.order_type
  pub side : event.aggressor ≡ from_buyer_maker trade.is_buyer_maker

abbrev pub Explains : F64 → FuturesTrade → NormalizeResult → Type 0
Explains fl trade (normalized event) = IsNormalized fl trade event
Explains fl trade (marker_event raw) = (raw ≡ trade) × (is_marker_event trade ≡ true)
Explains fl trade (parse_error what text e) =
    (is_marker_event trade ≡ false)
    × (((text ≡ trade.price) × (price_str_to_ticks fl trade.price ≡ err e))
        ⊎ ((text ≡ trade.quantity) × (quantity_str_to_ticks fl trade.quantity ≡ err e)))

event_of-IsNormalized :
    (fl : F64) (trade : FuturesTrade) (p q now_ns : ℕ)
    → is_marker_event trade ≡ false
    → price_str_to_ticks fl trade.price ≡ ok p
    → quantity_str_to_ticks fl trade.quantity ≡ ok q
    → IsNormalized fl trade (event_of trade p q now_ns)
event_of-IsNormalized fl trade p q now_ns real price qty = record {
  real = real;
  price = price;
  quantity = qty;
  price_fits = price_str_to_ticks-lt fl trade.price p price;
  quantity_fits = quantity_str_to_ticks-lt fl trade.quantity q qty;
  symbol = refl;
  sent = refl;
  id = refl;
  time = refl;
  kind = refl;
  side = refl;
}

-- Each result of the normaliser is explained by the trade. An event comes from a trade that is no
-- marker: its ticks are what the two texts parse to and fit in 64 bits, its symbol, its times, its
-- id, its order type and its side are the trade's. A marker is the trade itself and meets the marker
-- test. A parse error names a text of a trade that is no marker and does not parse.
pub normalize_trade_explained :
    (fl : F64) (now_ns : ℕ) (trade : FuturesTrade)
    → Explains fl trade (normalize_trade fl now_ns trade)
unfolding normalize_trade
normalize_trade_explained fl now_ns trade = elim (Bool-cases (is_marker_event trade)) [
  | inl marker ↦ rw marker (refl, marker)
  | inr real ↦ rw real (elim (Result-cases (price_str_to_ticks fl trade.price)) [
    | inr (e, bad) ↦ rw (bad, normalize_trade) (real, inl (refl, bad))
    | inl (p, price) ↦ elim (Result-cases (quantity_str_to_ticks fl trade.quantity)) [
      | inr (e, bad) ↦ rw (price, bad) (real, inr (refl, bad))
      | inl (q, qty) ↦ rw (price, qty) (event_of-IsNormalized fl trade p q now_ns real price qty)
    ]
  ])
]
