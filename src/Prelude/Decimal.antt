-- ===== src/Prelude/Decimal.antt =====
-- strconv.FormatUint and FormatInt of a number that is not negative, in base 10, as ASCII bytes.
use simple_cache.Prelude.{
  ℕ, zero, suc, ◌+◌, ◌-◌, ◌*◌, ◌/◌, ◌%◌, ◌≤◌, ◌<◌, ◌≡◌, refl, sym, ◌∙◌, ap, inl, inr, [], ◌∷◌, ◌++◌,
  Bytes, ltb, if◌then◌else◌, Bool-cases, arith,
}

-- One digit more for each round; the fuel is more than the number.
unfoldable pub format_from : ℕ → ℕ → Bytes
format_from zero n = []
format_from (suc fuel) n =
    let rest = format_from fuel (n / 10) in
    if ltb n 10 then (48 + n) ∷ [] else rest ++ (48 + n % 10) ∷ []

unfoldable pub format : ℕ → Bytes
unfolding format_from
format n = format_from (suc n) n

-- The number that digits spell.
unfoldable pub value_from : ℕ → Bytes → ℕ
value_from acc [] = acc
value_from acc (c ∷ l) = value_from (10 * acc + (c - 48)) l

value_from-append :
    (acc : ℕ) (l : Bytes) (c : ℕ) → value_from acc (l ++ c ∷ []) ≡ 10 * value_from acc l + (c - 48)
unfolding value_from
value_from-append acc [] c = refl
value_from-append acc (x ∷ l) c = value_from-append (10 * acc + (x - 48)) l c

value-format_from : (fuel n : ℕ) → n < fuel → value_from 0 (format_from fuel n) ≡ n
unfolding format_from value_from
value-format_from zero n h = omega (arith, h)
value-format_from (suc fuel) n h = elim (Bool-cases (ltb n 10)) [
  | inl small ↦ rw (small, format_from) (omega arith)
  | inr big ↦
      rw (big, format_from)
        (value_from-append 0 (format_from fuel (n / 10)) (48 + n % 10)
          ∙ ground (arith, value-format_from fuel (n / 10)))
]

-- Printing loses nothing.
pub value-format : (n : ℕ) → value_from 0 (format n) ≡ n
unfolding format
value-format n = value-format_from (suc n) n (omega arith)

-- No byte of the text is `b`.
abbrev pub Lacks : ℕ → Bytes → Type 0
Lacks b [] = Unit {0}
Lacks b (c ∷ l) = (c ≡ b → ⊥) × Lacks b l

Lacks-append : (b c : ℕ) (l : Bytes) → Lacks b l → (c ≡ b → ⊥) → Lacks b (l ++ c ∷ [])
Lacks-append b c [] h ne = (ne, tt)
Lacks-append b c (x ∷ l) h ne = (h.0, Lacks-append b c l h.1 ne)

format_from-Lacks : (fuel n : ℕ) → Lacks 58 (format_from fuel n)
unfolding format_from
format_from-Lacks zero n = tt
format_from-Lacks (suc fuel) n = elim (Bool-cases (ltb n 10)) [
  | inl small ↦ rw (small, format_from) ((λ e. ground (arith, e)), tt)
  | inr big ↦
      rw (big, format_from)
        (Lacks-append 58 (48 + n % 10) (format_from fuel (n / 10)) (format_from-Lacks fuel (n / 10))
          (λ e. omega (arith, e)))
]

-- A number is printed without a colon.
pub format-Lacks : (n : ℕ) → Lacks 58 (format n)
unfolding format
format-Lacks n = format_from-Lacks (suc n) n

-- What stands before the first separator, and after it, is determined.
pub split_at :
    (b : ℕ) (l m x y : Bytes) → Lacks b l → Lacks b m → l ++ b ∷ x ≡ m ++ b ∷ y → (l ≡ m) × (x ≡ y)
split_at b [] [] x y h g e = (refl, ground arith)
split_at b [] (c ∷ m) x y h g e = absurd (g.0 (ground arith))
split_at b (c ∷ l) [] x y h g e = absurd (h.0 (ground arith))
split_at b (c ∷ l) (d ∷ m) x y h g e =
    let r = split_at b l m x y h.1 g.1 (ground arith) in (ground (arith, r.0), r.1)

-- Two numbers that are printed alike are the same.
pub format_injective : (m n : ℕ) → format m ≡ format n → m ≡ n
format_injective m n e = sym (value-format m) ∙ ap (value_from 0) e ∙ value-format n

-- ASCII digits only.
abbrev pub AreDigits : Bytes → Type 0
AreDigits [] = Unit {0}
AreDigits (c ∷ l) = (48 ≤ c) × (c ≤ 57) × AreDigits l

AreDigits-append : (c : ℕ) (l : Bytes) → AreDigits l → 48 ≤ c → c ≤ 57 → AreDigits (l ++ c ∷ [])
AreDigits-append c [] h lo hi = (lo, hi, tt)
AreDigits-append c (x ∷ l) h lo hi = (h.0, h.1, AreDigits-append c l h.2 lo hi)

format_from-AreDigits : (fuel n : ℕ) → AreDigits (format_from fuel n)
unfolding format_from
format_from-AreDigits zero n = tt
format_from-AreDigits (suc fuel) n = elim (Bool-cases (ltb n 10)) [
  | inl small ↦ rw (small, format_from) (omega arith, ground (arith, small), tt)
  | inr big ↦
      rw (big, format_from)
        (AreDigits-append (48 + n % 10) (format_from fuel (n / 10))
          (format_from-AreDigits fuel (n / 10)) (omega arith) (omega arith))
]

pub format-AreDigits : (n : ℕ) → AreDigits (format n)
unfolding format
format-AreDigits n = format_from-AreDigits (suc n) n

append_nonempty : (c : ℕ) (l : Bytes) → l ++ c ∷ [] ≡ [] → ⊥
append_nonempty c [] e = cc
append_nonempty c (x ∷ l) e = cc

pub format_nonempty : (n : ℕ) → format n ≡ [] → ⊥
unfolding format format_from
format_nonempty n e = elim (Bool-cases (ltb n 10)) [
  | inl small ↦ ground (arith, small)
  | inr big ↦ append_nonempty (48 + n % 10) (format_from n (n / 10)) (ground (arith, big))
]
