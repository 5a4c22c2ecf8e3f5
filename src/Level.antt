-- ===== src/Level.antt =====
-- src/orderbook/level.rs: price levels in integer ticks, and the conversions from and to text.
pub mod Floats
pub mod Whole
use futures_orderbook.Prelude.{ℕ, String, Bool, ◌==◌, Result, ok, err, ◌>>=◌, arith, ◌<◌, ◌≡◌}
use futures_orderbook.Prelude.Word.{u64_mod}
use futures_orderbook.Error.{AnyError}
use Floats.{F64}

-- `TICK_SCALE`
abbrev pub tick_scale : ℕ
tick_scale = 100_000_000

pub record PriceLevel : Type 0 where
  pub price : ℕ
  pub quantity : ℕ

unfoldable pub is_removal : PriceLevel → Bool
is_removal l = l.quantity == 0

module _ (fl : F64) where
  open fl use {Float, parse, of_u64, to_u64, mul, div, round, fixed, to_u64-lt}

  unfoldable pub price_str_to_ticks : String → Result ℕ AnyError
  price_str_to_ticks s = do value ← parse s; ok (to_u64 (round (mul value (of_u64 tick_scale))))

  unfoldable pub quantity_str_to_ticks : String → Result ℕ AnyError
  quantity_str_to_ticks s = do value ← parse s; ok (to_u64 (round (mul value (of_u64 tick_scale))))

  unfoldable pub ticks_to_price_str : ℕ → String
  ticks_to_price_str ticks = fixed 2 (div (of_u64 ticks) (of_u64 tick_scale))

  unfoldable pub ticks_to_quantity_str : ℕ → String
  ticks_to_quantity_str ticks = fixed 4 (div (of_u64 ticks) (of_u64 tick_scale))

  ticks_lt :
      (r : Result Float AnyError) (p : ℕ)
      → (r >>= λ value. ok (to_u64 (round (mul value (of_u64 tick_scale))))) ≡ ok p
      → p < u64_mod
  ticks_lt (ok v) p h = ground (arith, to_u64-lt (round (mul v (of_u64 tick_scale))))
  ticks_lt (err e) p h = cc

  -- A price that was read fits in 64 bits.
  pub price_str_to_ticks-lt : (s : String) (p : ℕ) → price_str_to_ticks s ≡ ok p → p < u64_mod
  unfolding price_str_to_ticks
  price_str_to_ticks-lt s p h = ticks_lt (parse s) p h

  -- So does a quantity.
  pub quantity_str_to_ticks-lt : (s : String) (q : ℕ) → quantity_str_to_ticks s ≡ ok q → q < u64_mod
  unfolding quantity_str_to_ticks
  quantity_str_to_ticks-lt s q h = ticks_lt (parse s) q h
