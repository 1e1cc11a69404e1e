-- ===== src/App/Tags.antt =====
-- internal/app/mutations_http.go: the version tag of a value, and the precondition of a mutation.
-- strings.TrimSpace is written out over bytes, with the spaces that have two or three of them.
pub mod Preconditions
use simple_cache.Prelude.{
  ℕ, zero, suc, ite, Bool, true, false, not, ◌&&◌, ◌||◌, Option, none, some, List, [], ◌∷◌, ◌++◌,
  Bytes, Bytes-discrete, length, ltb, leb, ◌==◌, if◌then◌else◌,
}
use simple_cache.Prelude.Int.{ℤ, pos, negsuc}
use simple_cache.Prelude.Decimal.{format}
use simple_cache.Protocol.{parse_int}
use simple_cache.Cluster.{Method, put}

unfoldable pub reverse_onto : Bytes → Bytes → Bytes
reverse_onto [] acc = acc
reverse_onto (c ∷ l) acc = reverse_onto l (c ∷ acc)

-- \t\n\v\f\r and space
abbrev pub is_space : ℕ → Bool
is_space c = (leb 9 c && leb c 13) || c == 32

-- U+0085 and U+00A0; U+1680, U+2000 to U+200A, U+2028, U+2029, U+202F, U+205F and U+3000.
abbrev pub is_space2 : ℕ → ℕ → Bool
is_space2 c d = c == 0xc2 && (d == 0x85 || d == 0xa0)

abbrev pub is_space3 : ℕ → ℕ → ℕ → Bool
is_space3 c d e =
    (c == 0xe1 && (d == 0x9a && e == 0x80))
    || ((c == 0xe2
          && ((d == 0x80 && ((leb 0x80 e && leb e 0x8a) || (e == 0xa8 || (e == 0xa9 || e == 0xaf))))
              || (d == 0x81 && e == 0x9f)))
        || (c == 0xe3 && (d == 0x80 && e == 0x80)))

-- Off the front; `back` says that the text is reversed.
unfoldable pub trim_front : Bool → Bytes → Bytes
trim_front back [] = []
trim_front back (c ∷ []) = if is_space c then [] else c ∷ []
trim_front back (c ∷ d ∷ []) = elim (is_space c) [
  | true ↦ trim_front back (d ∷ [])
  | false ↦ if (if back then is_space2 d c else is_space2 c d) then [] else c ∷ d ∷ []
]
trim_front back (c ∷ d ∷ e ∷ l) = elim (is_space c) [
  | true ↦ trim_front back (d ∷ e ∷ l)
  | false ↦ elim (if back then is_space2 d c else is_space2 c d) [
    | true ↦ trim_front back (e ∷ l)
    | false ↦ elim (if back then is_space3 e d c else is_space3 c d e) [
      | true ↦ trim_front back l
      | false ↦ c ∷ d ∷ e ∷ l
    ]
  ]
]

unfoldable pub trim_space : Bytes → Bytes
unfolding trim_front reverse_onto
trim_space s = reverse_onto (trim_front true (reverse_onto (trim_front false s) [])) []

-- versionETag of a version that is not negative: "v…"
unfoldable pub version_etag : ℕ → Bytes
version_etag version = 34 ∷ 118 ∷ (format version ++ 34 ∷ [])

-- raw[2:len(raw)-1], of a text with that prefix and that suffix.
unfoldable pub before_quote : Bytes → Option Bytes
before_quote [] = none
before_quote (c ∷ []) = if c == 34 then some [] else none
before_quote (c ∷ d ∷ l) = elim (before_quote (d ∷ l)) [ none ↦ none | some s ↦ some (c ∷ s) ]

abbrev pub tag_text : Bytes → Option Bytes
tag_text (c ∷ d ∷ l) = if c == 34 && d == 118 then before_quote l else none
tag_text _ = none

-- The expected version, and the status of an error, or 0.
abbrev pub bad_tag : ℕ × ℕ
bad_tag = (0, 400)

abbrev pub tagged : Bytes → Option ℤ → ℕ × ℕ
tagged raw none = bad_tag
tagged raw (some (negsuc n)) = bad_tag
tagged raw (some (pos zero)) = bad_tag
tagged raw (some (pos (suc n))) = ite (Bytes-discrete raw (version_etag (suc n))) (suc n, 0) bad_tag

abbrev pub parsed_tag : Bytes → Option Bytes → ℕ × ℕ
parsed_tag raw none = bad_tag
parsed_tag raw (some text) = tagged raw (parse_int text)

unfoldable pub exact_tag : Bytes → ℕ × ℕ
unfolding version_etag before_quote parse_int
exact_tag raw = if ltb (length raw) 4 then bad_tag else parsed_tag raw (tag_text raw)

abbrev pub is_put : Method → Bool
is_put put = true
is_put _ = false

-- mutationPrecondition, for the values of If-Match and If-None-Match.
unfoldable pub mutation_precondition : Method → List Bytes → List Bytes → ℕ × ℕ
unfolding trim_space exact_tag
mutation_precondition method [] [] = (0, 428)
mutation_precondition method [] (absent ∷ []) =
    if is_put method && ite (Bytes-discrete (trim_space absent) (42 ∷ [])) true false
    then (0, 0)
    else bad_tag
mutation_precondition method [] (absent ∷ more ∷ l) = bad_tag
mutation_precondition method (tag ∷ []) [] = exact_tag (trim_space tag)
mutation_precondition method (tag ∷ []) (absent ∷ l) = bad_tag
mutation_precondition method (tag ∷ more ∷ l) absent = bad_tag
