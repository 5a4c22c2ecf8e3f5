-- ===== src/Level/Floats.antt =====
-- The binary64 numbers that the program computes with, as a parameter: there are no floats here.
-- `to_u64` is the cast `as u64`, which saturates, so its value is in range.
use futures_orderbook.Prelude.{ℕ, ◌<◌, Bool, String, Result}
use futures_orderbook.Prelude.Word.{u64_mod}
use futures_orderbook.Error.{AnyError}

pub record F64 : Type 1 where
  pub Float : Type 0
  pub parse : String → Result Float AnyError
  pub of_u64 : ℕ → Float
  pub to_u64 : Float → ℕ
  pub mul : Float → Float → Float
  pub div : Float → Float → Float
  pub round : Float → Float
  pub add : Float → Float → Float
  pub sub : Float → Float → Float
  pub lt : Float → Float → Bool
  -- `f64::max` and `f64::clamp`
  pub greater : Float → Float → Float
  pub clamp : (x lo hi : Float) → Float
  -- A literal of the source, such as `0.35`.
  pub lit : String → Float
  -- The number that `serde_json` writes.
  pub json : Float → String
  -- `format!("{:.n}", x)`
  pub fixed : ℕ → Float → String
  pub to_u64-lt : (x : Float) → to_u64 x < u64_mod
