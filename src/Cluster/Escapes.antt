-- ===== src/Cluster/Escapes.antt =====
-- What a path keeps of the names in it.
use simple_cache.Prelude.{
  ℕ, ◌/◌, ◌%◌, ◌<◌, ◌≡◌, refl, ap, ◌∙◌, inl, inr, true, false, some, [], ◌∷◌, ◌++◌, Bytes, ◌==◌,
  Bool-cases, arith,
}
use simple_cache.Cluster.Paths.{
  trim_prefix, split_slash, is_kept, upper_hex, hex_value, path_escape, unescape_from,
  path_unescape, outside,
}

-- A string of bytes.
unfoldable pub AreBytes : Bytes → Type 0
AreBytes [] = Unit
AreBytes (c ∷ l) = (c < 256) × AreBytes l

hex_value-upper_hex : (n : ℕ) → n < 16 → hex_value (upper_hex n) ≡ some n
hex_value-upper_hex n h = ground (arith, h)

hex_slash : (n : ℕ) → n < 16 → (upper_hex n == 47) ≡ false
hex_slash n h = ground (arith, h)

kept_percent : (c : ℕ) → is_kept c ≡ true → (c == 37) ≡ false
kept_percent c h = ground (arith, h)

kept_slash : (c : ℕ) → is_kept c ≡ true → (c == 47) ≡ false
kept_slash c h = ground (arith, h)

abbrev pub escaped_char : ℕ → Bytes → Bytes
escaped_char c l = 37 ∷ upper_hex (c / 16) ∷ upper_hex (c % 16) ∷ l

path_escape_kept : (c : ℕ) (l : Bytes) → is_kept c ≡ true → path_escape (c ∷ l) ≡ c ∷ path_escape l
unfolding path_escape
path_escape_kept c l kept = rw (kept, path_escape) refl

path_escape_escaped :
    (c : ℕ) (l : Bytes) → is_kept c ≡ false → path_escape (c ∷ l) ≡ escaped_char c (path_escape l)
unfolding path_escape
path_escape_escaped c l escaped = rw (escaped, path_escape) refl

pub unescape_kept :
    (c : ℕ) (l s : Bytes)
    → (c == 37) ≡ false
    → unescape_from outside l ≡ some s
    → unescape_from outside (c ∷ l) ≡ some (c ∷ s)
unfolding unescape_from
unescape_kept c l s plain h = rw (plain, unescape_from, h) refl

pub unescape_escaped :
    (c : ℕ) (l s : Bytes)
    → c < 256
    → unescape_from outside l ≡ some s
    → unescape_from outside (escaped_char c l) ≡ some (c ∷ s)
unfolding unescape_from
unescape_escaped c l s b h =
    rw
      (
        hex_value-upper_hex (c / 16) (omega (arith, b)),
        unescape_from,
        hex_value-upper_hex (c % 16) (omega (arith, b)),
        h,
      )
      (ap (λ (d : ℕ). some (d ∷ s)) (omega (arith, b)))

pub path_unescape-path_escape : (s : Bytes) → AreBytes s → path_unescape (path_escape s) ≡ some s
unfolding path_escape unescape_from path_unescape AreBytes
path_unescape-path_escape [] h = refl
path_unescape-path_escape (c ∷ l) (b, h) = elim (Bool-cases (is_kept c)) [
  | inl kept ↦
      ap path_unescape (path_escape_kept c l kept)
      ∙ unescape_kept c (path_escape l) l (kept_percent c kept) (path_unescape-path_escape l h)
  | inr escaped ↦
      ap path_unescape (path_escape_escaped c l escaped)
      ∙ unescape_escaped c (path_escape l) l b (path_unescape-path_escape l h)
]

split_slash_skip :
    (c : ℕ) (l a b : Bytes)
    → (c == 47) ≡ false
    → split_slash l ≡ some (a, b)
    → split_slash (c ∷ l) ≡ some (c ∷ a, b)
unfolding split_slash
split_slash_skip c l a b plain h = rw (plain, split_slash, h) refl

-- An escaped name has no slash of its own.
pub split_slash-path_escape :
    (s rest : Bytes)
    → AreBytes s
    → split_slash (path_escape s ++ 47 ∷ rest) ≡ some (path_escape s, rest)
unfolding path_escape split_slash AreBytes
split_slash-path_escape [] rest h = refl
split_slash-path_escape (c ∷ l) rest (b, h) = elim (Bool-cases (is_kept c)) [
  | inl kept ↦
      let e = path_escape_kept c l kept in
      rw e (
        split_slash_skip c (path_escape l ++ 47 ∷ rest) (path_escape l) rest (kept_slash c kept)
          (split_slash-path_escape l rest h))
  | inr escaped ↦
      let e = path_escape_escaped c l escaped in
      let low =
        split_slash_skip (upper_hex (c % 16)) (path_escape l ++ 47 ∷ rest) (path_escape l) rest
          (hex_slash (c % 16) (omega (arith, b))) (split_slash-path_escape l rest h) in
      let high =
        split_slash_skip (upper_hex (c / 16)) (upper_hex (c % 16) ∷ path_escape l ++ 47 ∷ rest)
          (upper_hex (c % 16) ∷ path_escape l) rest (hex_slash (c / 16) (omega (arith, b))) low in
      rw e (
        split_slash_skip 37 (upper_hex (c / 16) ∷ upper_hex (c % 16) ∷ path_escape l ++ 47 ∷ rest)
          (upper_hex (c / 16) ∷ upper_hex (c % 16) ∷ path_escape l) rest refl high)
]

pub trim_prefix_lem : (p rest : Bytes) → trim_prefix p (p ++ rest) ≡ some rest
unfolding trim_prefix
trim_prefix_lem [] rest = refl
trim_prefix_lem (c ∷ p) rest = ground (arith, trim_prefix_lem p rest)
