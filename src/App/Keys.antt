-- ===== src/App/Keys.antt =====
-- internal/app/api.go: requestKey, the one accepted form of a key in a query. url.ParseQuery and
-- url.QueryEscape are written out over bytes.
pub mod Forms
use simple_cache.Prelude.{
  ℕ, zero, suc, ◌/◌, ◌%◌, ite, Bool, true, false, not, ◌&&◌, ◌||◌, Option, none, some, List, [],
  ◌∷◌, ◌++◌, map, Bytes, Bytes-discrete, ltb, leb, ◌==◌, if◌then◌else◌,
}
use simple_cache.Errors.{Error, other, validate_key, valid_string}
use simple_cache.Cluster.Paths.{upper_hex, path_unescape}

-- Letters, digits, and -_.~
abbrev pub is_unreserved : ℕ → Bool
is_unreserved c =
    (leb 48 c && leb c 57)
    || ((leb 65 c && leb c 90)
        || ((leb 97 c && leb c 122) || (c == 45 || (c == 95 || (c == 46 || c == 126)))))

-- url.QueryEscape, where a space becomes +
unfoldable pub query_escape : Bytes → Bytes
query_escape [] = []
query_escape (c ∷ l) =
    let rest = query_escape l in
    if is_unreserved c
    then c ∷ rest
    else if c == 32
    then 43 ∷ rest
    else 37 ∷ upper_hex (c / 16) ∷ upper_hex (c % 16) ∷ rest

-- strings.ReplaceAll(s, "+", "%20")
unfoldable pub replace_plus : Bytes → Bytes
replace_plus [] = []
replace_plus (c ∷ l) =
    let rest = replace_plus l in if c == 43 then 37 ∷ 50 ∷ 48 ∷ rest else c ∷ rest

-- url.QueryUnescape
abbrev pub space_of_plus : ℕ → ℕ
space_of_plus c = if c == 43 then 32 else c

abbrev pub query_unescape : Bytes → Option Bytes
query_unescape s = path_unescape (map space_of_plus s)

-- strings.Cut(s, sep), for one byte: what stands before it, and what stands after, if it is there.
unfoldable pub cut : ℕ → Bytes → Bytes × Option Bytes
cut sep [] = ([], none)
cut sep (c ∷ l) = let (a, b) = cut sep l in if c == sep then ([], some l) else (c ∷ a, b)

unfoldable pub has_semicolon : Bytes → Bool
has_semicolon [] = false
has_semicolon (c ∷ l) = let rest = has_semicolon l in c == 59 || rest

abbrev pub or_empty : Option Bytes → Bytes
or_empty none = []
or_empty (some s) = s

abbrev pub pair_of : Option Bytes → Option Bytes → Option (Bytes × Bytes)
pair_of none value = none
pair_of (some key) none = none
pair_of (some key) (some value) = some (key, value)

-- One part of a query; `none` is an error of ParseQuery.
unfoldable pub parse_pair : Bytes → Option (Bytes × Bytes)
unfolding cut
parse_pair part =
    let (key, value) = cut 61 part in pair_of (query_unescape key) (query_unescape (or_empty value))

abbrev pub with_pair :
    Option (Bytes × Bytes) → Option (List (Bytes × Bytes)) → Option (List (Bytes × Bytes))
with_pair none r = none
with_pair (some p) none = none
with_pair (some p) (some l) = some (p ∷ l)

abbrev pub add_part : Bytes → Option (List (Bytes × Bytes)) → Option (List (Bytes × Bytes))
add_part [] rest = rest
add_part (c ∷ part) rest =
    if has_semicolon (c ∷ part) then none else with_pair (parse_pair (c ∷ part)) rest

-- url.ParseQuery on the parts between &; `none` is its error. Each round is for one part.
unfoldable pub split_parts : Bytes → List Bytes
split_parts [] = [] ∷ []
split_parts (c ∷ l) = elim (split_parts l) [
  | [] ↦ [] ∷ []
  | part ∷ parts ↦ if c == 38 then [] ∷ part ∷ parts else (c ∷ part) ∷ parts
]

unfoldable pub parse_parts : List Bytes → Option (List (Bytes × Bytes))
unfolding parse_pair has_semicolon
parse_parts [] = some []
parse_parts (part ∷ parts) = add_part part (parse_parts parts)

-- "key"
abbrev pub key_name : Bytes
key_name = 107 ∷ 101 ∷ 121 ∷ []

-- "key="
abbrev pub key_prefix : Bytes
key_prefix = 107 ∷ 101 ∷ 121 ∷ 61 ∷ []

-- len(values) == 1 and len(values["key"]) == 1: one pair in all, with that name.
abbrev pub only_key : Option (List (Bytes × Bytes)) → Option Bytes
only_key (some ((name, value) ∷ [])) = ite (Bytes-discrete name key_name) (some value) none
only_key _ = none

unfoldable pub wire_key : Bytes → Bytes
unfolding query_escape replace_plus
wire_key key = replace_plus (query_escape key)

unfoldable pub canonical_key : Bytes → Bytes → Bytes × Option Error
unfolding wire_key
canonical_key raw key =
    if not (valid_string key) then ([], some other) else elim (validate_key key) [
      | some e ↦ ([], some e)
      | none ↦ ite (Bytes-discrete raw (key_prefix ++ wire_key key)) (key, none) ([], some other)
    ]

abbrev pub key_or_error : Bytes → Option Bytes → Bytes × Option Error
key_or_error raw none = ([], some other)
key_or_error raw (some key) = canonical_key raw key

-- requestKey, for the raw query.
unfoldable pub request_key : Bytes → Bytes × Option Error
unfolding canonical_key split_parts parse_parts
request_key raw = key_or_error raw (only_key (parse_parts (split_parts raw)))
