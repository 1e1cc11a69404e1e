-- ===== src/Prelude/Words.antt =====
-- Go's int64 and uint64 as bit patterns below 2 ^ 64, and counters that wrap.
use Prim.Native.Nat.{ℕ, ◌+◌, ◌-◌, ◌%◌, ◌^◌, ◌<◌}
use mathlib.Core.Bool.{Bool}
use mathlib.Core.Path.{◌≡◌}
use native.Mathlib.Omega.{arith}
use simple_cache.Prelude.Tests.{ltb}

abbrev pub add64 : ℕ → ℕ → ℕ
add64 a b = (a + b) % 2 ^ 64

-- `-` on ℕ stops at 0, so the modulus is added first.
abbrev pub sub64 : ℕ → ℕ → ℕ
sub64 a b = (a + 2 ^ 64 - b % 2 ^ 64) % 2 ^ 64

-- `a < b` on int64: the sign bit is moved out of the way.
abbrev pub ltb64 : ℕ → ℕ → Bool
ltb64 a b = ltb ((a + 2 ^ 63) % 2 ^ 64) ((b + 2 ^ 63) % 2 ^ 64)

-- Below 2 ^ 63 the signed test is the plain one.
pub ltb64-eq-ltb : (a b : ℕ) → a < 2 ^ 63 → b < 2 ^ 63 → ltb64 a b ≡ ltb a b
ltb64-eq-ltb a b ha hb = ground arith
