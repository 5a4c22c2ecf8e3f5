-- ===== src/Prelude/Word.antt =====
-- Machine integers as natural numbers. Arithmetic wraps, as in a release build; a signed word is in
-- two's complement.
use Prim.Native.Nat.{ℕ, ◌+◌, ◌-◌, ◌%◌, ◌^◌}

abbrev pub u64_mod : ℕ
u64_mod = 2 ^ 64

abbrev pub add64 : ℕ → ℕ → ℕ
add64 a b = (a + b) % u64_mod

abbrev pub sub64 : ℕ → ℕ → ℕ
sub64 a b = (a + u64_mod - b) % u64_mod

abbrev pub word128_mod : ℕ
word128_mod = 2 ^ 128

abbrev pub add128 : ℕ → ℕ → ℕ
add128 a b = (a + b) % word128_mod

abbrev pub sub128 : ℕ → ℕ → ℕ
sub128 a b = (a + word128_mod - b) % word128_mod
