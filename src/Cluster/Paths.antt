-- ===== src/Cluster/Paths.antt =====
-- The paths of invalidation.go and server.go, with strings.TrimPrefix, strings.SplitN, url.PathEscape and
-- url.PathUnescape written out over bytes.
use simple_cache.Prelude.{
  ℕ, ◌+◌, ◌-◌, ◌*◌, ◌/◌, ◌%◌, Bool, true, false, ◌&&◌, ◌||◌, Option, none, some, [], ◌∷◌, Bytes,
  ltb, leb, ◌==◌, if◌then◌else◌,
}

-- "/_simplecache/invalidate/"
abbrev pub base_path : Bytes
base_path =
    47 ∷ 95 ∷ 115 ∷ 105 ∷ 109 ∷ 112 ∷ 108 ∷ 101 ∷ 99 ∷ 97 ∷ 99 ∷ 104 ∷ 101 ∷ 47 ∷ 105 ∷ 110 ∷ 118
    ∷ 97 ∷ 108 ∷ 105 ∷ 100 ∷ 97 ∷ 116 ∷ 101 ∷ 47 ∷ []

-- strings.HasPrefix and strings.TrimPrefix in one: what follows the prefix, if it is there.
unfoldable pub trim_prefix : Bytes → Bytes → Option Bytes
trim_prefix [] s = some s
trim_prefix (p ∷ ps) [] = none
trim_prefix (p ∷ ps) (c ∷ l) = let rest = trim_prefix ps l in if p == c then rest else none

-- strings.SplitN(s, "/", 2), where it gives two parts.
unfoldable pub split_slash : Bytes → Option (Bytes × Bytes)
split_slash [] = none
split_slash (c ∷ l) =
    let rest = split_slash l in
    if c == 47 then some ([], l) else elim rest [ none ↦ none | some (a, b) ↦ some (c ∷ a, b) ]

abbrev between : ℕ → ℕ → ℕ → Bool
between lo hi c = leb lo c && leb c hi

-- What a segment keeps: letters, digits, and -_.~ $&+:=@
abbrev pub is_kept : ℕ → Bool
is_kept c =
    between 48 57 c
    || (between 65 90 c
        || (between 97 122 c
            || (c == 45
                || (c == 95
                    || (c == 46
                        || (c == 126
                            || (c == 36
                                || (c == 38
                                    || (c == 43 || (c == 58 || (c == 61 || c == 64)))))))))))

abbrev pub upper_hex : ℕ → ℕ
upper_hex n = if ltb n 10 then 48 + n else 55 + n

unfoldable pub path_escape : Bytes → Bytes
path_escape [] = []
path_escape (c ∷ l) =
    let rest = path_escape l in
    if is_kept c then c ∷ rest else 37 ∷ upper_hex (c / 16) ∷ upper_hex (c % 16) ∷ rest

abbrev pub hex_value : ℕ → Option ℕ
hex_value c =
    if between 48 57 c
    then some (c - 48)
    else if between 65 70 c
    then some (c - 55)
    else if between 97 102 c
    then some (c - 87)
    else none

-- Where the text stands: outside an escape, after its %, or after its first digit.
pub data Escape : Type 0 where
  outside after_percent : Escape
  after_digit : ℕ → Escape

abbrev pub prepend : ℕ → Option Bytes → Option Bytes
prepend c none = none
prepend c (some l) = some (c ∷ l)

unfoldable pub unescape_from : Escape → Bytes → Option Bytes
unescape_from outside [] = some []
unescape_from after_percent [] = none
unescape_from (after_digit d) [] = none
unescape_from outside (c ∷ l) = elim (c == 37) [
  | true ↦ unescape_from after_percent l
  | false ↦ prepend c (unescape_from outside l)
]
unescape_from after_percent (c ∷ l) = elim (hex_value c) [
  | none ↦ none
  | some d ↦ unescape_from (after_digit d) l
]
unescape_from (after_digit d) (c ∷ l) = elim (hex_value c) [
  | none ↦ none
  | some e ↦ prepend (16 * d + e) (unescape_from outside l)
]

unfoldable pub path_unescape : Bytes → Option Bytes
unfolding unescape_from
path_unescape s = unescape_from outside s
