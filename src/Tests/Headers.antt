-- ===== src/Tests/Headers.antt =====
-- internal/cluster/protocol.go at fixed inputs.
use simple_cache.Prelude.{ℕ, ◌<◌, ◌≡◌, refl, ◌⊎◌, none, [], ◌∷◌, Bytes, Bytes-discrete, arith}
use simple_cache.Prelude.Decimal.{format, format_from}
use simple_cache.Protocol.{
  parse_invalidation_version, parse_int, parse_nat, parse_digits, checked_version, bad_version,
}
use simple_cache.Protocol.Versions.{
  parse_invalidation_version-format, parse_invalidation_version-accepted,
}

-- "42"
abbrev forty_two : Bytes
forty_two = 52 ∷ 50 ∷ []

parse_invalidation_version-format_example : parse_invalidation_version (format 42 ∷ []) ≡ (42, none)
parse_invalidation_version-format_example = parse_invalidation_version-format 41 (omega arith)

forty_two-accepted : parse_invalidation_version (forty_two ∷ []) ≡ (42, none)
unfolding parse_invalidation_version parse_int parse_nat parse_digits checked_version format
    format_from Bytes-discrete
forty_two-accepted = refl

-- "042" is refused.
padded-refused : parse_invalidation_version ((48 ∷ forty_two) ∷ []) ≡ bad_version
unfolding parse_invalidation_version parse_int parse_nat parse_digits checked_version format
    format_from Bytes-discrete
padded-refused = refl

abbrev version_read : ℕ
version_read = 42

parse_invalidation_version-accepted_example :
    ((forty_two ∷ [] ≡ []) × (version_read ≡ 0)) ⊎ ((forty_two ∷ [] ≡ format 42 ∷ []) × (0 < 42))
parse_invalidation_version-accepted_example =
    parse_invalidation_version-accepted (forty_two ∷ []) 42 forty_two-accepted
