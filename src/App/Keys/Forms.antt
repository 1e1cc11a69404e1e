-- ===== src/App/Keys/Forms.antt =====
-- api.go: every accepted key has one form in a query.
use simple_cache.Prelude.{
  ℕ, ◌/◌, ◌%◌, ◌<◌, ◌≡◌, ◌↔◌, refl, sym, ap, subst, ◌∙◌, inl, inr, ite, if_pos, if_neg, true, false,
  Option, none, some, [], ◌∷◌, ◌++◌, map, Bytes, Bytes-discrete, length, ltb, ◌==◌, Bool-cases,
  Option-cases, arith,
}
use simple_cache.Errors.{Error, other, validate_key, valid_string, contains_nul, invalid_key}
use simple_cache.Cluster.Paths.{upper_hex, path_unescape, unescape_from, outside}
use simple_cache.Cluster.Escapes.{AreBytes, escaped_char, unescape_kept, unescape_escaped}
use simple_cache.Cluster.Exchanges.{accepted_third, validate_key-AreBytes}
use simple_cache.App.Keys.{
  is_unreserved, query_escape, replace_plus, space_of_plus, query_unescape, cut, has_semicolon,
  pair_of, parse_pair, split_parts, parse_parts, key_name, key_prefix, only_key, wire_key,
  canonical_key, key_or_error, request_key,
}

wire_key_kept : (c : ℕ) (l : Bytes) → is_unreserved c ≡ true → wire_key (c ∷ l) ≡ c ∷ wire_key l
unfolding wire_key query_escape replace_plus
wire_key_kept c l kept =
    let other_than_plus : (c == 43) ≡ false = ground (arith, kept) in
    rw (kept, query_escape, other_than_plus, replace_plus) refl

hex_plus : (n : ℕ) → n < 16 → (upper_hex n == 43) ≡ false
hex_plus n h = ground (arith, h)

wire_key_escaped :
    (c : ℕ) (l : Bytes)
    → c < 256
    → is_unreserved c ≡ false
    → wire_key (c ∷ l) ≡ escaped_char c (wire_key l)
unfolding wire_key query_escape replace_plus
wire_key_escaped c l b escaped = elim (Bool-cases (c == 32)) [
  | inl space ↦ let is : c ≡ 32 = ground (arith, space) in rw (is, wire_key) refl
  | inr visible ↦
      rw
        (
          escaped,
          query_escape,
          visible,
          replace_plus,
          hex_plus (c / 16) (omega (arith, b)),
          hex_plus (c % 16) (omega (arith, b)),
        )
        refl
]

-- Neither & nor ; nor +.
unfoldable IsPlain : Bytes → Type 0
IsPlain [] = Unit
IsPlain (c ∷ l) = ((c == 38) ≡ false) × ((c == 59) ≡ false) × ((c == 43) ≡ false) × IsPlain l

escaped_char-IsPlain : (c : ℕ) (l : Bytes) → c < 256 → IsPlain l → IsPlain (escaped_char c l)
unfolding IsPlain
escaped_char-IsPlain c l b h = (
  refl,
  refl,
  refl,
  (
    ground (arith, b),
    ground (arith, b),
    ground (arith, b),
    (ground (arith, b), ground (arith, b), ground (arith, b), h),
  ),
)

wire_key-IsPlain : (key : Bytes) → AreBytes key → IsPlain (wire_key key)
unfolding AreBytes IsPlain wire_key query_escape replace_plus
wire_key-IsPlain [] h = tt
wire_key-IsPlain (c ∷ l) (b, h) = elim (Bool-cases (is_unreserved c)) [
  | inl kept ↦
      subst IsPlain (sym (wire_key_kept c l kept))
        (ground (arith, kept), ground (arith, kept), ground (arith, kept), wire_key-IsPlain l h)
  | inr escaped ↦
      subst IsPlain (sym (wire_key_escaped c l b escaped))
        (escaped_char-IsPlain c (wire_key l) b (wire_key-IsPlain l h))
]

split_parts_plain : (s : Bytes) → IsPlain s → split_parts s ≡ s ∷ []
unfolding IsPlain split_parts
split_parts_plain [] h = refl
split_parts_plain (c ∷ l) (amp, semi, plus, h) = rw (split_parts_plain l h, split_parts, amp) refl

has_semicolon_plain : (s : Bytes) → IsPlain s → has_semicolon s ≡ false
unfolding IsPlain has_semicolon
has_semicolon_plain [] h = refl
has_semicolon_plain (c ∷ l) (amp, semi, plus, h) = ground (arith, semi, has_semicolon_plain l h)

map_plain : (s : Bytes) → IsPlain s → map space_of_plus s ≡ s
unfolding IsPlain
map_plain [] h = refl
map_plain (c ∷ l) (amp, semi, plus, h) = rw (plus, map_plain l h) refl

unescape-wire_key : (key : Bytes) → AreBytes key → unescape_from outside (wire_key key) ≡ some key
unfolding AreBytes wire_key query_escape replace_plus unescape_from
unescape-wire_key [] h = refl
unescape-wire_key (c ∷ l) (b, h) = elim (Bool-cases (is_unreserved c)) [
  | inl kept ↦
      ap (unescape_from outside) (wire_key_kept c l kept)
      ∙ unescape_kept c (wire_key l) l (ground (arith, kept)) (unescape-wire_key l h)
  | inr escaped ↦
      ap (unescape_from outside) (wire_key_escaped c l b escaped)
      ∙ unescape_escaped c (wire_key l) l b (unescape-wire_key l h)
]

valid_key_text : (key : Bytes) → validate_key key ≡ none → valid_string key ≡ true
unfolding validate_key
valid_key_text key h =
    accepted_third (length key == 0) (ltb 256 (length key)) (valid_string key) (contains_nul key)
      invalid_key h

canonical_key_valid :
    (raw key : Bytes)
    → validate_key key ≡ none
    → canonical_key raw key
      ≡ ite (Bytes-discrete raw (key_prefix ++ wire_key key)) (key, none) ([], some other)
unfolding canonical_key
canonical_key_valid raw key valid = rw (valid_key_text key valid, canonical_key, valid) refl

module _ (key : Bytes) (bytes : AreBytes key) where
  abbrev form : Bytes
  form = key_prefix ++ wire_key key

  form-IsPlain : IsPlain form
  unfolding IsPlain
  form-IsPlain = (
    refl,
    refl,
    refl,
    (refl, refl, refl, (refl, refl, refl, (refl, refl, refl, wire_key-IsPlain key bytes))),
  )

  query_unescape-wire_key : query_unescape (wire_key key) ≡ some key
  unfolding path_unescape
  query_unescape-wire_key =
      ap (unescape_from outside) (map_plain (wire_key key) (wire_key-IsPlain key bytes))
      ∙ unescape-wire_key key bytes

  parse_pair-form : parse_pair form ≡ some (key_name, key)
  unfolding parse_pair cut path_unescape unescape_from
  parse_pair-form = ap (pair_of (some key_name)) query_unescape-wire_key

  parse_parts-form : parse_parts (split_parts form) ≡ some ((key_name, key) ∷ [])
  unfolding parse_parts
  parse_parts-form =
      ap parse_parts (split_parts_plain form form-IsPlain)
      ∙ rw (has_semicolon_plain form form-IsPlain, parse_pair-form) refl

  request_key-form : validate_key key ≡ none → request_key form ≡ (key, none)
  unfolding request_key
  request_key-form valid =
      ap (λ r. key_or_error form (only_key r)) parse_parts-form
      ∙ ap (key_or_error form) (if_pos (Bytes-discrete key_name key_name) refl (some key) none)
      ∙ canonical_key_valid form key valid
      ∙ if_pos (Bytes-discrete form form) refl (key, none) ([], some other)

other_error :
    (r : Bytes × Option Error) (key key' : Bytes) (e : Error)
    → r ≡ (key', some e)
    → r ≡ (key, none)
    → ⊥
other_error r key key' e h g =
    let failed : r.1 ≡ some e = ap (λ (x : Bytes × Option Error). x.1) h in
    let fine : r.1 ≡ none = ap (λ (x : Bytes × Option Error). x.1) g in cc

canonical_key_accepted :
    (raw key key' : Bytes)
    → canonical_key raw key' ≡ (key, none)
    → (validate_key key ≡ none) × (raw ≡ key_prefix ++ wire_key key)
unfolding canonical_key
canonical_key_accepted raw key key' h = elim (Bool-cases (valid_string key')) [
  | inr bad ↦ absurd (ground (arith, bad, h))
  | inl good ↦ elim (Option-cases (validate_key key')) [
    | inr (e, bad) ↦ absurd (ground (arith, good, bad, h))
    | inl valid ↦ elim (Bytes-discrete raw (key_prefix ++ wire_key key')) [
      | yes exact ↦
          let same : key' ≡ key =
            ap (λ (r : Bytes × Option Error). r.0)
              (sym (
                  canonical_key_valid raw key' valid
                  ∙ if_pos (Bytes-discrete raw (key_prefix ++ wire_key key')) exact (key', none)
                      ([], some other))
                ∙ h) in
          (
            subst (λ k. validate_key k ≡ none) same valid,
            subst (λ k. raw ≡ key_prefix ++ wire_key k) same exact,
          )
      | no differ ↦ absurd (
          other_error (canonical_key raw key') key [] other
            (canonical_key_valid raw key' valid
              ∙ if_neg (Bytes-discrete raw (key_prefix ++ wire_key key')) differ (key', none)
                  ([], some other))
            h)
    ]
  ]
]

request_key_accepted :
    (raw key : Bytes)
    → request_key raw ≡ (key, none)
    → (validate_key key ≡ none) × (raw ≡ key_prefix ++ wire_key key)
unfolding request_key
request_key_accepted raw key h = elim (Option-cases (only_key (parse_parts (split_parts raw)))) [
  | inl nothing ↦
      absurd (other_error (request_key raw) key [] other (ap (key_or_error raw) nothing) h)
  | inr (key', found) ↦ canonical_key_accepted raw key key' (ap (key_or_error raw) (sym found) ∙ h)
]

-- A raw query is accepted for a key exactly where the key is valid and the query is its one canonical form:
-- no two forms of a key are accepted, and no form stands for two keys.
pub request_key-canonical :
    (raw key : Bytes)
    → (request_key raw ≡ (key, none))
      ↔ ((validate_key key ≡ none) × (raw ≡ key_prefix ++ wire_key key))
request_key-canonical raw key = (
  request_key_accepted raw key,
  λ h.
      subst (λ r. request_key r ≡ (key, none)) (sym h.1)
        (request_key-form key (validate_key-AreBytes key h.0) h.0),
)
