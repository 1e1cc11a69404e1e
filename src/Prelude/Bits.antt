-- ===== src/Prelude/Bits.antt =====
-- Single bits of a word under `&` and `|`, from the recursion on binary digits that they stand for.
use Prim.Native.Nat.{
  ℕ, zero, suc, ◌+◌, ◌*◌, ◌/◌, ◌%◌, ◌^◌, ◌≤◌, min, max, bit_and, bit_or, digits, bit_and-bitwise,
  bit_or-bitwise,
}
use mathlib.Core.Path.{◌≡◌, refl, ap}
use mathlib.Core.Logic.{◌≢◌}
use native.Mathlib.Nat.{pow-suc}
use native.Mathlib.Omega.{arith}

-- With `z` the law of the digits above, the count of digits to go does not matter.
module _ (z : ℕ → ℕ) (f : ℕ → ℕ → ℕ) (above : (b : ℕ) → z b ≡ z (b / 2) * 2 + f 0 (b % 2)) where
  digits_count : (n m a b : ℕ) → a ≤ n → a ≤ m → digits z f n a b ≡ digits z f m a b
  digits_count zero zero zero b p q = refl
  digits_count zero zero (suc a) b p q = refl
  digits_count zero (suc m) zero b p q = refl
  digits_count zero (suc m) (suc a) b p q = absurd (omega arith)
  digits_count (suc n) zero zero b p q = refl
  digits_count (suc n) zero (suc a) b p q = absurd (omega arith)
  digits_count (suc n) (suc m) zero b p q = refl
  digits_count (suc n) (suc m) (suc a) b p q =
      omega (arith, digits_count n m (suc a / 2) (b / 2) (omega arith) (omega arith))

  digits_unfold :
      (a b : ℕ) → digits z f a a b ≡ digits z f (a / 2) (a / 2) (b / 2) * 2 + f (a % 2) (b % 2)
  digits_unfold zero b = above b
  digits_unfold (suc a) b =
      omega (arith, digits_count a (suc a / 2) (suc a / 2) (b / 2) (omega arith) (omega arith))

pub bit_and_halves : (a b : ℕ) → bit_and a b ≡ bit_and (a / 2) (b / 2) * 2 + min (a % 2) (b % 2)
bit_and_halves a b = omega (
  arith,
  bit_and-bitwise a b,
  bit_and-bitwise (a / 2) (b / 2),
  digits_unfold (λ b. zero) min (λ b. omega arith) a b,
)

pub bit_or_halves : (a b : ℕ) → bit_or a b ≡ bit_or (a / 2) (b / 2) * 2 + max (a % 2) (b % 2)
bit_or_halves a b = omega (
  arith,
  bit_or-bitwise a b,
  bit_or-bitwise (a / 2) (b / 2),
  digits_unfold (λ b. b) max (λ b. omega arith) a b,
)

and_le_fuel : (n a b : ℕ) → a ≤ n → bit_and a b ≤ b
and_le_fuel zero zero b h = omega (arith, bit_and-bitwise 0 b)
and_le_fuel zero (suc a) b h = absurd (omega arith)
and_le_fuel (suc n) zero b h = omega (arith, bit_and-bitwise 0 b)
and_le_fuel (suc n) (suc a) b h =
    omega (arith, bit_and_halves (suc a) b, and_le_fuel n (suc a / 2) (b / 2) (omega arith))

-- A mask bounds what passes it.
pub bit_and-le : (a b : ℕ) → bit_and a b ≤ b
bit_and-le a b = and_le_fuel a a b (omega arith)

half_power : (k : ℕ) → 2 ^ suc k / 2 ≡ 2 ^ k
half_power k = omega (arith, pow-suc 2 k)

and_power : (k a : ℕ) → bit_and a (2 ^ suc k) ≡ bit_and (a / 2) (2 ^ k) * 2
and_power k a = omega (
  arith,
  bit_and_halves a (2 ^ suc k),
  pow-suc 2 k,
  ap (λ (p : ℕ). bit_and (a / 2) p) (half_power k),
)

-- The upper half of a word, after an `|`.
or_half : (w x : ℕ) → bit_or w x / 2 ≡ bit_or (w / 2) (x / 2)
or_half w x = omega (arith, bit_or_halves w x)

-- A bit that was just set is set.
pub bit_and-or_self : (k w : ℕ) → bit_and (bit_or w (2 ^ k)) (2 ^ k) ≢ 0
bit_and-or_self zero w h = omega (arith, bit_and_halves (bit_or w 1) 1, bit_or_halves w 1, h)
bit_and-or_self (suc k) w h = omega (
  arith,
  and_power k (bit_or w (2 ^ suc k)),
  ap (λ (v : ℕ). bit_and v (2 ^ k)) (or_half w (2 ^ suc k)),
  ap (λ (p : ℕ). bit_and (bit_or (w / 2) p) (2 ^ k)) (half_power k),
  bit_and-or_self k (w / 2),
  h,
)

-- A bit that was set stays set, whatever is added.
pub bit_and-or_keep : (k w x : ℕ) → bit_and w (2 ^ k) ≢ 0 → bit_and (bit_or w x) (2 ^ k) ≢ 0
bit_and-or_keep zero w x s h = omega (
  arith,
  bit_and_halves (bit_or w x) 1,
  bit_or_halves w x,
  bit_and_halves w 1,
  bit_and-le (w / 2) 0,
  s,
  h,
)
bit_and-or_keep (suc k) w x s h = omega (
  arith,
  and_power k (bit_or w x),
  and_power k w,
  ap (λ (v : ℕ). bit_and v (2 ^ k)) (or_half w x),
  bit_and-or_keep k (w / 2) (x / 2),
  s,
  h,
)
