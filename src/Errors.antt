-- ===== src/Errors.antt =====
-- internal/cache/errors.go: the errors of the engine as values, their metric label, and the keys that
-- are accepted. A wrapped error is the error that errors.Is finds in it.
use Prim.Native.String.{String}
use simple_cache.Prelude.{
  ℕ, zero, suc, Bool, true, false, not, ◌&&◌, ◌||◌, Option, none, some, [], ◌∷◌, Bytes, length, ltb,
  leb, ◌==◌, if◌then◌else◌,
}

pub data Error : Type 0 where
  not_found invalid_key value_too_large precondition_failed invalid_version stale_version : Error
  overloaded deadline_exceeded canceled unversioned other : Error

abbrev pub max_value_bytes : ℕ
max_value_bytes = 1048576

-- Result: the label of an outcome.
unfoldable pub result : Option Error → String
result none = "ok"
result (some not_found) = "not_found"
result (some overloaded) = "overloaded"
result (some stale_version) = "stale_version"
result (some precondition_failed) = "precondition_failed"
result (some deadline_exceeded) = "timeout"
result (some canceled) = "timeout"
result (some _) = "error"

-- unicode/utf8: after a first byte, how many bytes follow and the range of the next one.
unfoldable pub lead : ℕ → Option (ℕ × ℕ × ℕ)
lead c =
    if ltb c 0x80
    then some (0, 0x80, 0xbf)
    else if ltb c 0xc2
    then none
    else if ltb c 0xe0
    then some (1, 0x80, 0xbf)
    else if c == 0xe0
    then some (2, 0xa0, 0xbf)
    else if c == 0xed
    then some (2, 0x80, 0x9f)
    else if ltb c 0xf0
    then some (2, 0x80, 0xbf)
    else if c == 0xf0
    then some (3, 0x90, 0xbf)
    else if ltb c 0xf4
    then some (3, 0x80, 0xbf)
    else if c == 0xf4
    then some (3, 0x80, 0x8f)
    else none

-- `need` bytes to go in the current character, the next one from `lo` to `hi`.
unfoldable pub valid_from : ℕ → ℕ → ℕ → Bytes → Bool
unfolding lead
valid_from zero lo hi [] = true
valid_from (suc need) lo hi [] = false
valid_from zero lo hi (c ∷ l) = elim (lead c) [
  | none ↦ false
  | some (need, lo', hi') ↦ valid_from need lo' hi' l
]
valid_from (suc need) lo hi (c ∷ l) =
    let rest = valid_from need 0x80 0xbf l in leb lo c && (leb c hi && rest)

-- utf8.ValidString
unfoldable pub valid_string : Bytes → Bool
unfolding valid_from
valid_string key = valid_from 0 0 0 key

-- strings.ContainsRune(key, 0)
unfoldable pub contains_nul : Bytes → Bool
contains_nul [] = false
contains_nul (c ∷ l) = let rest = contains_nul l in c == 0 || rest

unfoldable pub validate_key : Bytes → Option Error
unfolding valid_string contains_nul
validate_key key =
    if length key == 0 || (ltb 256 (length key) || (not (valid_string key) || contains_nul key))
    then some invalid_key
    else none
