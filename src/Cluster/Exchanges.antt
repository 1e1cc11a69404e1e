-- ===== src/Cluster/Exchanges.antt =====
-- invalidation.go and server.go together: what a client sends is what the handler of the member applies.
use simple_cache.Prelude.{
  ℕ, zero, suc, ◌^◌, ◌<◌, ◌≡◌, refl, ap, ◌∙◌, inl, inr, Bool, true, false, not, ◌||◌, none, some,
  [], ◌∷◌, ◌++◌, Bytes, Bytes-discrete, length, if_pos, ltb, ◌==◌, if◌then◌else◌, Bool-cases,
  Option-cases, arith,
}
use simple_cache.Prelude.Int.{pos}
use simple_cache.Prelude.Maps
use simple_cache.Errors.{
  Error, invalid_key, validate_key, valid_string, valid_from, lead, contains_nul,
}
use simple_cache.Protocol.{authorized, bearer, parse_invalidation_version}
use simple_cache.Protocol.Versions.{parse_invalidation_version-format}
use simple_cache.Group.{Group, apply_version, invalidate_version}
use simple_cache.Cluster.{
  Response, Handler, Client, responded, version_header, serve_version, serve_group, replied,
  serve_parts, serve_key, serve_path, serve, client_request, acknowledged, client_invalidate,
  is_empty,
}
use simple_cache.Cluster.Paths.{base_path, trim_prefix, path_escape, path_unescape}
use simple_cache.Cluster.Escapes.{
  AreBytes, path_unescape-path_escape, split_slash-path_escape, trim_prefix_lem,
}

lead_bound : (c need lo hi : ℕ) → lead c ≡ some (need, lo, hi) → (c < 256) × (hi < 256)
unfolding lead
lead_bound c need lo hi h = ground (arith, h)

valid_from-AreBytes :
    (need lo hi : ℕ) (s : Bytes) → hi < 256 → valid_from need lo hi s ≡ true → AreBytes s
unfolding valid_from AreBytes
valid_from-AreBytes zero lo hi [] b h = tt
valid_from-AreBytes (suc need) lo hi [] b h = tt
valid_from-AreBytes zero lo hi (c ∷ l) b h = elim (Option-cases (lead c)) [
  | inl bad ↦ ground (arith, bad, h)
  | inr ((need, lo', hi'), found) ↦
      let (b', b'') = lead_bound c need lo' hi' found in
      (b', valid_from-AreBytes need lo' hi' l b'' (ground (arith, found, h)))
]
valid_from-AreBytes (suc need) lo hi (c ∷ l) b h =
    (ground (arith, b, h), valid_from-AreBytes need 0x80 0xbf l (omega arith) (ground (arith, h)))

pub accepted_third :
    (a b c d : Bool) (e : Error)
    → (if a || (b || (not c || d)) then some e else none) ≡ none
    → c ≡ true
accepted_third a b c d e h = ground (arith, h)

pub validate_key-AreBytes : (key : Bytes) → validate_key key ≡ none → AreBytes key
unfolding validate_key valid_string
validate_key-AreBytes key h = valid_from-AreBytes 0 0 0 key (omega arith) (
    accepted_third (length key == 0) (ltb 256 (length key)) (valid_from 0 0 0 key)
      (contains_nul key) invalid_key h)

pub parse_invalidation_version-version_header :
    (v : ℕ) → v < 2 ^ 63 → parse_invalidation_version (version_header v) ≡ (v, none)
unfolding parse_invalidation_version
parse_invalidation_version-version_header zero b = refl
parse_invalidation_version-version_header (suc n) b = parse_invalidation_version-format n b

authorized-bearer :
    (token : Bytes) → is_empty token ≡ false → authorized (bearer ++ token) token ≡ true
unfolding authorized
authorized-bearer [] h = cc
authorized-bearer (c ∷ l) h =
    if_pos (Bytes-discrete (bearer ++ c ∷ l) (bearer ++ c ∷ l)) refl true false

pub invalidate_version_accepted :
    (now later : ℕ) (key : Bytes) (version : ℕ) (g : Group)
    → validate_key key ≡ none
    → invalidate_version now later key (pos version) g
      ≡ (apply_version now later key version g, none)
unfolding invalidate_version
invalidate_version_accepted now later key version g valid = rw (valid, invalidate_version) refl

module _ (now later : ℕ) (name key : Bytes) (version : ℕ) (h : Handler) (g : Group)
    (known : Maps.get name h.groups ≡ some g) (valid : validate_key key ≡ none)
    (small : version < 2 ^ 63) where
  abbrev pub Served : Handler × Response → Type 0
  Served r = r ≡ (
    record h { groups = Maps.put name (apply_version now later key version g) h.groups },
    record { code = 204; versions = version_header version },
  )

  serve_group_known : Served (serve_group now later (version_header version) name key (some g) h)
  unfolding serve_group serve_version
  serve_group_known =
      ap (serve_version now later name key g h)
        (parse_invalidation_version-version_header version small)
      ∙ ap (replied name version h) (invalidate_version_accepted now later key version g valid)

  serve_key_valid : Served (serve_key now later (version_header version) (some name) (some key) h)
  unfolding serve_key
  serve_key_valid =
      ap (λ x. serve_group now later (version_header version) name key x h) known
      ∙ serve_group_known

  serve_path_valid :
      AreBytes name
      → Served (
          serve_path now later
            (version_header version)
            (trim_prefix base_path (base_path ++ (path_escape name ++ 47 ∷ path_escape key)))
            h)
  unfolding serve_path serve_parts
  serve_path_valid named =
      ap (λ x. serve_path now later (version_header version) x h)
        (trim_prefix_lem base_path (path_escape name ++ 47 ∷ path_escape key))
      ∙ ap (λ x. serve_parts now later (version_header version) x h)
          (split_slash-path_escape name (path_escape key) named)
      ∙ ap (λ x. serve_key now later (version_header version) x (path_unescape (path_escape key)) h)
          (path_unescape-path_escape name named)
      ∙ ap (λ x. serve_key now later (version_header version) (some name) x h)
          (path_unescape-path_escape key (validate_key-AreBytes key valid))
      ∙ serve_key_valid

  serve_authorized :
      (c : Client)
      → AreBytes name
      → is_empty h.token ≡ false
      → c.token ≡ h.token
      → Served (serve now later (client_request c name key version) h)
  unfolding serve client_request
  serve_authorized c named nonempty same =
      let granted : authorized (bearer ++ c.token) h.token ≡ true =
        rw same (authorized-bearer h.token nonempty) in
      rw (nonempty, serve, granted) (serve_path_valid named)

  acknowledged_served :
      acknowledged version (record { code = 204; versions = version_header version }) ≡ none
  unfolding acknowledged
  acknowledged_served = elim (Bool-cases (version == 0)) [
    | inl forced ↦ rw forced refl
    | inr versioned ↦
        rw (versioned, parse_invalidation_version-version_header version small) (ground arith)
  ]

  -- A member with the same token, which is not empty, has a group of that name. For an accepted key and a
  -- version below 2 ^ 63, whatever bytes the name and the key have, the request that a client makes is
  -- served: the invalidation is applied to that group and to no other, and the answer acknowledges the
  -- version.
  pub serve-client_request :
      (c : Client)
      → AreBytes name
      → is_empty h.token ≡ false
      → c.token ≡ h.token
      → Served (serve now later (client_request c name key version) h)
        × (client_invalidate (λ q. responded (serve now later q h).1) c name key (pos version)
            ≡ none)
  unfolding client_invalidate
  serve-client_request c named nonempty same =
      let served = serve_authorized c named nonempty same in
      (
        served,
        ap (λ (r : Handler × Response). acknowledged version r.1) served ∙ acknowledged_served,
      )
