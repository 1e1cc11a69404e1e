-- ===== src/Protocol.antt =====
-- internal/cluster/protocol.go: the version header of an invalidation, the bearer token and the status
-- codes. A header is the list of its values; strconv.ParseInt is written out for base 10 and 64 bits.
pub mod Versions
use simple_cache.Prelude.{
  ℕ, zero, suc, ◌+◌, ◌-◌, ◌*◌, ◌^◌, ite, Bool, true, false, not, ◌&&◌, Option, none, some, List, [],
  ◌∷◌, ◌++◌, Bytes, Bytes-discrete, ltb, leb, ◌==◌, if◌then◌else◌,
}
use simple_cache.Prelude.Int.{ℤ, pos, negsuc}
use simple_cache.Prelude.Decimal.{format}
use simple_cache.Errors.{
  Error, not_found, invalid_key, invalid_version, deadline_exceeded, canceled,
}

unfoldable pub parse_digits : ℕ → Bytes → Option ℕ
parse_digits acc [] = some acc
parse_digits acc (c ∷ l) =
    let rest = parse_digits (10 * acc + (c - 48)) l in if leb 48 c && leb c 57 then rest else none

-- No digit is an error.
unfoldable pub parse_nat : Bytes → Option ℕ
unfolding parse_digits
parse_nat [] = none
parse_nat (c ∷ l) = parse_digits 0 (c ∷ l)

abbrev in_range : Option ℕ → Option ℤ
in_range none = none
in_range (some n) = if ltb n (2 ^ 63) then some (pos n) else none

abbrev negated : Option ℕ → Option ℤ
negated none = none
negated (some zero) = some (pos zero)
negated (some (suc n)) = if ltb n (2 ^ 63) then some (negsuc n) else none

-- strconv.ParseInt(s, 10, 64); `none` is its error.
unfoldable pub parse_int : Bytes → Option ℤ
unfolding parse_nat
parse_int [] = none
parse_int (c ∷ l) =
    if c == 45
    then negated (parse_nat l)
    else if c == 43
    then in_range (parse_nat l)
    else in_range (parse_nat (c ∷ l))

abbrev pub bad_version : ℕ × Option Error
bad_version = (0, some invalid_version)

-- The checks on what was parsed: positive, and printed as it was written.
unfoldable pub checked_version : Bytes → Option ℤ → ℕ × Option Error
checked_version text none = bad_version
checked_version text (some (negsuc n)) = bad_version
checked_version text (some (pos zero)) = bad_version
checked_version text (some (pos (suc n))) =
    ite (Bytes-discrete (format (suc n)) text) (suc n, none) bad_version

unfoldable pub parse_invalidation_version : List Bytes → ℕ × Option Error
unfolding parse_int checked_version
parse_invalidation_version [] = (0, none)
parse_invalidation_version (text ∷ []) = checked_version text (parse_int text)
parse_invalidation_version (text ∷ more ∷ rest) = bad_version

-- "Bearer "
abbrev pub bearer : Bytes
bearer = 66 ∷ 101 ∷ 97 ∷ 114 ∷ 101 ∷ 114 ∷ 32 ∷ []

-- Authorized, for the value of the Authorization header.
unfoldable pub authorized : Bytes → Bytes → Bool
authorized header [] = false
authorized header (c ∷ token) = ite (Bytes-discrete header (bearer ++ c ∷ token)) true false

-- Status
unfoldable pub status : Option Error → ℕ
status (some not_found) = 404
status (some invalid_key) = 400
status (some invalid_version) = 400
status (some deadline_exceeded) = 504
status (some canceled) = 504
status _ = 503
