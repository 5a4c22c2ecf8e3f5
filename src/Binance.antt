-- ===== src/Binance.antt =====
-- src/binance/types.rs: the payloads of the exchange. Deserialisation is the work of serde, and the
-- records are what it yields.
use text.Mathlib.Text.{◌==◌ as str_eq}
use futures_orderbook.Prelude.{ℕ, String, List, [], ◌∷◌, Option, none, if◌then◌else◌}

-- The REST snapshot.
pub record DepthSnapshot : Type 0 where
  pub last_update_id : ℕ
  pub bids : List (String × String)
  pub asks : List (String × String)
  pub t : Option ℕ
  pub e : Option String
  pub last_update_time : Option ℕ

-- A depth event: `U`, `u` and `pu` of the stream are the three ids.
pub record DepthUpdate : Type 0 where
  pub event_type : String
  pub event_time : ℕ
  pub transaction_time : ℕ
  pub symbol : String
  pub first_update_id : ℕ
  pub final_update_id : ℕ
  pub previous_final_update_id : ℕ
  pub bids : List (String × String)
  pub asks : List (String × String)

pub record Filter : Type 0 where
  pub filter_type : String
  pub min_price : Option String
  pub max_price : Option String
  pub tick_size : Option String
  pub min_qty : Option String
  pub max_qty : Option String
  pub step_size : Option String

pub record SymbolInfo : Type 0 where
  pub symbol : String
  pub filters : List Filter
  pub base_asset_precision : Option ℕ
  pub quote_asset_precision : Option ℕ
  pub price_precision : Option ℕ
  pub quantity_precision : Option ℕ

pub record ExchangeInfo : Type 0 where
  pub symbols : List SymbolInfo

-- `find` by the filter's type, then a field of what was found.
abbrev field_of : String → (Filter → Option String) → List Filter → Option String
field_of kind field [] = none
field_of kind field (f ∷ fs) = if str_eq f.filter_type kind then field f else field_of kind field fs

unfoldable pub tick_size : SymbolInfo → Option String
tick_size s = field_of "PRICE_FILTER" (λ f. f.tick_size) s.filters

unfoldable pub step_size : SymbolInfo → Option String
step_size s = field_of "LOT_SIZE" (λ f. f.step_size) s.filters
