-- ===== src/App/Tags/Preconditions.antt =====
-- mutations_http.go: the tag that a reader was given is the precondition of its write.
use simple_cache.Prelude.{
  ℕ, suc, ◌^◌, ◌<◌, ◌≡◌, refl, sym, ap, ◌∙◌, if_pos, Bool, true, false, some, [], ◌∷◌, ◌++◌, Bytes,
  Bytes-discrete, length, length-append, ltb, arith,
}
use simple_cache.Prelude.Decimal.{format, format_nonempty}
use simple_cache.Protocol.Versions.{parse_int-format}
use simple_cache.Cluster.{Method}
use simple_cache.App.Tags.{
  bad_tag, reverse_onto, trim_front, trim_space, version_etag, before_quote, tagged, parsed_tag,
  exact_tag, mutation_precondition,
}

reverse_onto-append :
    (a b acc : Bytes) → reverse_onto (a ++ b) acc ≡ reverse_onto b (reverse_onto a acc)
unfolding reverse_onto
reverse_onto-append [] b acc = refl
reverse_onto-append (c ∷ a) b acc = reverse_onto-append a b (c ∷ acc)

reverse_onto-reverse_onto :
    (s acc k : Bytes) → reverse_onto (reverse_onto s acc) k ≡ reverse_onto acc (s ++ k)
unfolding reverse_onto
reverse_onto-reverse_onto [] acc k = refl
reverse_onto-reverse_onto (c ∷ s) acc k = reverse_onto-reverse_onto s (c ∷ acc) k

append_nil : (s : Bytes) → s ++ [] ≡ s
append_nil [] = refl
append_nil (c ∷ s) = ap (λ l. c ∷ l) (append_nil s)

-- A quote stops the trimming.
trim_front_quote : (back : Bool) (l : Bytes) → trim_front back (34 ∷ l) ≡ 34 ∷ l
unfolding trim_front
trim_front_quote back [] = refl
trim_front_quote back (d ∷ []) = ground arith
trim_front_quote back (d ∷ e ∷ l) = ground arith

trim_space_quoted : (s : Bytes) → trim_space (34 ∷ (s ++ 34 ∷ [])) ≡ 34 ∷ (s ++ 34 ∷ [])
unfolding trim_space reverse_onto
trim_space_quoted s =
    let text = 34 ∷ (s ++ 34 ∷ []) in
    let turned : reverse_onto text [] ≡ 34 ∷ reverse_onto s (34 ∷ []) =
      reverse_onto-append s (34 ∷ []) (34 ∷ []) in
    ap (λ t. reverse_onto (trim_front true (reverse_onto t [])) [])
      (trim_front_quote false (s ++ 34 ∷ []))
    ∙ ap (λ t. reverse_onto (trim_front true t) []) turned
    ∙ ap (λ t. reverse_onto t []) (trim_front_quote true (reverse_onto s (34 ∷ [])) ∙ sym turned)
    ∙ reverse_onto-reverse_onto text [] []
    ∙ append_nil text

before_quote_lem : (f : Bytes) → before_quote (f ++ 34 ∷ []) ≡ some f
unfolding before_quote
before_quote_lem [] = refl
before_quote_lem (c ∷ []) = refl
before_quote_lem (c ∷ d ∷ f) = rw (before_quote_lem (d ∷ f)) refl

nonempty_length : (f : Bytes) → (f ≡ [] → ⊥) → 0 < length f
nonempty_length [] h = absurd (h refl)
nonempty_length (c ∷ f) h = omega arith

exact_tag-version_etag : (n : ℕ) → suc n < 2 ^ 63 → exact_tag (version_etag (suc n)) ≡ (suc n, 0)
unfolding exact_tag
exact_tag-version_etag n small =
    let f = format (suc n) in
    let long : ltb (length (version_etag (suc n))) 4 ≡ false =
      ground (arith, length-append f (34 ∷ []), nonempty_length f (format_nonempty (suc n))) in
    rw (long, exact_tag)
      (ap (parsed_tag (version_etag (suc n))) (before_quote_lem f)
        ∙ ap (tagged (version_etag (suc n))) (parse_int-format (suc n) small)
        ∙ if_pos (Bytes-discrete (version_etag (suc n)) (version_etag (suc n))) refl (suc n, 0)
            bad_tag)

-- The tag of a positive version below 2 ^ 63, sent back as If-Match alone, is the precondition that this
-- version is current, whatever the method.
pub mutation_precondition-version_etag :
    (method : Method) (n : ℕ)
    → suc n < 2 ^ 63
    → mutation_precondition method (version_etag (suc n) ∷ []) [] ≡ (suc n, 0)
unfolding mutation_precondition version_etag
mutation_precondition-version_etag method n small =
    ap exact_tag (trim_space_quoted (118 ∷ format (suc n))) ∙ exact_tag-version_etag n small
