-- ===== src/Level/Whole.antt =====
-- A concrete instance of the float interface, for tests and examples: whole numbers, written in
-- decimal digits, with a cast that saturates.
use Prim.Native.Char.{code}
use Prim.Native.String.{String}
use futures_orderbook.Prelude.{
  ℕ, ◌+◌, ◌-◌, ◌*◌, ◌/◌, ◌<◌, ◌&&◌, min, max, Result, ok, err, arith, ltb, leb, if◌then◌else◌,
}
use futures_orderbook.Prelude.Word.{u64_mod}
use futures_orderbook.Error.{AnyError, parse_float}
use futures_orderbook.Level.Floats.{F64}

abbrev digits : ℕ → String → Result ℕ AnyError
digits n String.[] = ok n
digits n (String.◌∷◌ c s) =
    let rest = digits (n * 10 + (code c - b'0')) s in
    if leb b'0' (code c) && leb (code c) b'9' then rest else err parse_float

abbrev parse_whole : String → Result ℕ AnyError
parse_whole String.[] = err parse_float
parse_whole (String.◌∷◌ c s) = digits 0 (String.◌∷◌ c s)

pub saturate_lt : (x : ℕ) → min x (u64_mod - 1) < u64_mod
saturate_lt x = omega arith

abbrev pub whole : F64
whole = record {
  Float = ℕ;
  parse = parse_whole;
  of_u64 = λ n. n;
  to_u64 = λ x. min x (u64_mod - 1);
  mul = λ x y. x * y;
  div = λ x y. x / y;
  round = λ x. x;
  add = λ x y. x + y;
  sub = λ x y. x - y;
  lt = ltb;
  greater = max;
  clamp = λ x lo hi. min (max x lo) hi;
  lit = λ s. 0;
  json = λ x. "";
  fixed = λ n x. "";
  to_u64-lt = saturate_lt;
}
