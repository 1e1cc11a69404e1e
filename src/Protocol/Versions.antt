-- ===== src/Protocol/Versions.antt =====
-- protocol.go `ParseInvalidationVersion`: exactly the texts that FormatInt prints are accepted.
use simple_cache.Prelude.{
  ℕ, zero, suc, ◌+◌, ◌-◌, ◌*◌, ◌^◌, ◌<◌, ◌≡◌, refl, ◌∙◌, ap, ◌⊎◌, inl, inr, Option, none, some,
  List, [], ◌∷◌, Bytes, arith,
}
use simple_cache.Prelude.Int.{ℤ, pos, negsuc}
use simple_cache.Prelude.Decimal.{
  format, value_from, value-format, AreDigits, format-AreDigits, format_nonempty,
}
use simple_cache.Protocol.{
  parse_digits, parse_nat, parse_int, checked_version, parse_invalidation_version,
}

parse_digits_lem :
    (acc : ℕ) (l : Bytes) → AreDigits l → parse_digits acc l ≡ some (value_from acc l)
unfolding parse_digits value_from
parse_digits_lem acc [] h = refl
parse_digits_lem acc (c ∷ l) h =
    ground (arith, h.0, h.1, parse_digits_lem (10 * acc + (c - 48)) l h.2)

parse_int_lem :
    (l : Bytes)
    → AreDigits l
    → (l ≡ [] → ⊥)
    → value_from 0 l < 2 ^ 63
    → parse_int l ≡ some (pos (value_from 0 l))
unfolding parse_int parse_nat
parse_int_lem [] h ne small = absurd (ne refl)
parse_int_lem (c ∷ l) h ne small = ground (arith, h.0, h.1, parse_digits_lem 0 (c ∷ l) h)

pub parse_int-format : (n : ℕ) → n < 2 ^ 63 → parse_int (format n) ≡ some (pos n)
parse_int-format n small =
    parse_int_lem (format n) (format-AreDigits n) (format_nonempty n)
      (omega (arith, value-format n))
    ∙ ap (λ (v : ℕ). some (pos v)) (value-format n)

checked_version-format :
    (n : ℕ) → checked_version (format (suc n)) (some (pos (suc n))) ≡ (suc n, none)
unfolding checked_version
checked_version-format n = ground arith

-- A positive version below 2 ^ 63 that is printed into the header is read back.
pub parse_invalidation_version-format :
    (n : ℕ) → suc n < 2 ^ 63 → parse_invalidation_version (format (suc n) ∷ []) ≡ (suc n, none)
unfolding parse_invalidation_version
parse_invalidation_version-format n small =
    ap (checked_version (format (suc n))) (parse_int-format (suc n) small)
    ∙ checked_version-format n

checked_version-accepted :
    (text : Bytes) (r : Option ℤ) (v : ℕ)
    → checked_version text r ≡ (v, none)
    → (text ≡ format v) × (0 < v)
unfolding checked_version
checked_version-accepted text none v h = absurd (cc h)
checked_version-accepted text (some (negsuc n)) v h = absurd (cc h)
checked_version-accepted text (some (pos zero)) v h = absurd (cc h)
checked_version-accepted text (some (pos (suc n))) v h = (ground arith, ground arith)

-- A single header value that is accepted is the text of a positive version: no sign, no leading zero,
-- no other byte. Any other list of values but the empty one is refused.
pub parse_invalidation_version-accepted :
    (values : List Bytes) (v : ℕ)
    → parse_invalidation_version values ≡ (v, none)
    → ((values ≡ []) × (v ≡ 0)) ⊎ ((values ≡ format v ∷ []) × (0 < v))
unfolding parse_invalidation_version
parse_invalidation_version-accepted [] v h = inl (refl, ground arith)
parse_invalidation_version-accepted (text ∷ []) v h =
    let r = checked_version-accepted text (parse_int text) v h in
    inr (ap (λ (x : Bytes). x ∷ []) r.0, r.1)
parse_invalidation_version-accepted (text ∷ more ∷ rest) v h = absurd (cc h)
