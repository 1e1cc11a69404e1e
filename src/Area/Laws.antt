-- ===== src/Area/Laws.antt =====
-- cache.go: what is resident after each method, within the byte limit.
use simple_cache.Prelude.{
  ℕ, ◌^◌, ◌<◌, ◌≡◌, refl, ◌≢◌, inl, inr, Option, none, some, Bytes, Option-cases, arith,
}
use simple_cache.Lru
use simple_cache.Lru.Elements.{Element, find_key}
use simple_cache.Lru.Bounds.{IsBounded, peek-IsBounded, get-IsBounded, remove-IsBounded}
use simple_cache.Lru.Lookup.{peek-found}
use simple_cache.Lru.Shrinking.{
  Shrinks, peek-Shrinks, get-Shrinks, remove-Shrinks, find_key-remove, find_key-remove_other,
}
use simple_cache.Area.{ByteView, len_view, count_eviction, ViewCache, Area, remove, get, version}

abbrev pub version_in : Option ByteView → ℕ
version_in none = 0
version_in (some w) = w.version

-- The value stored under a key, expired or not.
abbrev value_of : Option (Element ByteView) → Option ByteView
value_of none = none
value_of (some e) = some e.value

unfoldable pub resident_in : Bytes → Option ViewCache → Option ByteView
resident_in k none = none
resident_in k (some c) = value_of (find_key k c.ll)

abbrev pub resident : Bytes → Area → Option ByteView
resident k a = resident_in k a.lru

pub resident_of_none : (k : Bytes) (a : Area) → a.lru ≡ none → resident k a ≡ none
unfolding resident_in
resident_of_none k a e = ground arith

abbrev Bounded : ℕ → Option ViewCache → Type 0
Bounded limit none = Unit {0}
Bounded limit (some c) = IsBounded len_view limit c

-- A positive limit below 2 ^ 62, kept by a coherent LRU.
pub record IsSound (a : Area) : Type 0 where
  pub positive : 0 < a.cache_bytes
  pub small : a.cache_bytes < 2 ^ 62
  pub bounded : Bounded a.cache_bytes a.lru

-- Nothing comes in, and the limit stays.
pub record Keeps (a a' : Area) : Type 0 where
  pub sound : IsSound a'
  pub limit : a'.cache_bytes ≡ a.cache_bytes
  pub shrinks : (k : Bytes) (v : ByteView) → resident k a' ≡ some v → resident k a ≡ some v

resident-Shrinks :
    (c c' : ViewCache)
    → Shrinks c c'
    → (k : Bytes) (v : ByteView) → resident_in k (some c') ≡ some v
    → resident_in k (some c) ≡ some v
unfolding resident_in
resident-Shrinks c c' s k v h = elim (Option-cases (find_key k c'.ll)) [
  | inl e ↦ ground arith
  | inr (x, e) ↦ ground (arith, s k x e)
]

pub Keeps-refl : (a : Area) → IsSound a → Keeps a a
Keeps-refl a v = record { sound = v; limit = refl; shrinks = λ k w h. h }

-- A method that replaces the LRU by a smaller one.
pub Keeps-lru :
    (a : Area) (c c' : ViewCache)
    → a.lru ≡ some c
    → IsSound a
    → IsBounded len_view a.cache_bytes c'
    → Shrinks c c'
    → Keeps a (record a { lru = some c' })
Keeps-lru a c c' e v b s = record {
  sound = record { positive = v.positive; small = v.small; bounded = b };
  limit = refl;
  shrinks = λ k w h. rw e (resident-Shrinks c c' s k w h);
}

pub lru-IsBounded :
    (a : Area) (c : ViewCache) → a.lru ≡ some c → IsSound a → IsBounded len_view a.cache_bytes c
lru-IsBounded a c e v = rw e at v.bounded

remove_of_none : (k : Bytes) (a : Area) → a.lru ≡ none → remove k a ≡ a
unfolding remove
remove_of_none k a e = ground arith

pub version_of_none : (now : ℕ) (k : Bytes) (a : Area) → a.lru ≡ none → version now k a ≡ (a, 0)
unfolding version
version_of_none now k a e = ground arith

pub get_of_none : (now : ℕ) (k : Bytes) (a : Area) → a.lru ≡ none → get now k a ≡ (a, none)
unfolding get
get_of_none now k a e = ground arith

remove_of_some :
    (k : Bytes) (a : Area) (c : ViewCache)
    → a.lru ≡ some c
    → remove k a ≡ record a { lru = some (Lru.remove len_view count_eviction k c) }
unfolding remove
remove_of_some k a c e = ground arith

pub version_of_some :
    (now : ℕ) (k : Bytes) (a : Area) (c : ViewCache)
    → a.lru ≡ some c
    → version now k a ≡ (
      record a { lru = some (Lru.peek len_view count_eviction now k c).0 },
      version_in (Lru.peek len_view count_eviction now k c).1,
    )
unfolding version
version_of_some now k a c e = ground arith

pub get_of_some :
    (now : ℕ) (k : Bytes) (a : Area) (c : ViewCache)
    → a.lru ≡ some c
    → get now k a ≡ (
      record a { lru = some (Lru.get len_view count_eviction now k c).0 },
      (Lru.get len_view count_eviction now k c).1,
    )
unfolding get
get_of_some now k a c e = ground arith

pub remove-Keeps : (k : Bytes) (a : Area) → IsSound a → Keeps a (remove k a)
unfolding remove
remove-Keeps k a v = elim (Option-cases a.lru) [
  | inl e ↦ rw (remove_of_none k a e) (Keeps-refl a v)
  | inr (c, e) ↦
      let b = lru-IsBounded a c e v in
      rw (remove_of_some k a c e) (
        Keeps-lru a c _ e v (remove-IsBounded len_view count_eviction a.cache_bytes k c b)
          (remove-Shrinks len_view count_eviction k c b.coherent))
]

-- A removed key has no resident value.
pub resident-remove : (k : Bytes) (a : Area) → IsSound a → resident k (remove k a) ≡ none
unfolding remove resident_in
resident-remove k a v = elim (Option-cases a.lru) [
  | inl e ↦ rw (e, remove, e) refl
  | inr (c, e) ↦
      rw (e, remove)
        (rw (find_key-remove len_view count_eviction k c (lru-IsBounded a c e v).coherent) refl)
]

-- The other keys keep theirs.
pub resident-remove_other :
    (k j : Bytes) (a : Area) → k ≢ j → IsSound a → resident j (remove k a) ≡ resident j a
unfolding remove resident_in
resident-remove_other k j a ne v = elim (Option-cases a.lru) [
  | inl e ↦ rw (e, remove, e) refl
  | inr (c, e) ↦
      rw (e, remove)
        (rw
          (find_key-remove_other len_view count_eviction k j c ne (lru-IsBounded a c e v).coherent)
          refl)
]

pub version-Keeps : (now : ℕ) (k : Bytes) (a : Area) → IsSound a → Keeps a (version now k a).0
unfolding version
version-Keeps now k a v = elim (Option-cases a.lru) [
  | inl e ↦ rw (version_of_none now k a e) (Keeps-refl a v)
  | inr (c, e) ↦
      let b = lru-IsBounded a c e v in
      rw (version_of_some now k a c e) (
        Keeps-lru a c _ e v (peek-IsBounded len_view count_eviction a.cache_bytes now k c b)
          (peek-Shrinks len_view count_eviction now k c b.coherent))
]

-- In a sound area, the version that is read is that of the value that stays resident, if one does.
pub version-resident :
    (now : ℕ) (k : Bytes) (a : Area) (w : ByteView)
    → IsSound a
    → resident k (version now k a).0 ≡ some w
    → (version now k a).1 ≡ w.version
unfolding version resident_in
version-resident now k a w v h = elim (Option-cases a.lru) [
  | inl e ↦ absurd (ground (arith, version_of_none now k a e))
  | inr (c, e) ↦
      let r = Lru.peek len_view count_eviction now k c in
      let q : resident_in k (some r.0) ≡ some w = rw (version_of_some now k a c e) at h in
      elim (Option-cases (find_key k r.0.ll)) [
        | inl f ↦ absurd (ground arith)
        | inr (x, f) ↦ ground (
          arith,
          version_of_some now k a c e,
          peek-found len_view count_eviction now k c (lru-IsBounded a c e v).coherent x f,
        )
      ]
]

pub get-Keeps : (now : ℕ) (k : Bytes) (a : Area) → IsSound a → Keeps a (get now k a).0
unfolding get
get-Keeps now k a v = elim (Option-cases a.lru) [
  | inl e ↦ rw (get_of_none now k a e) (Keeps-refl a v)
  | inr (c, e) ↦
      let b = lru-IsBounded a c e v in
      rw (get_of_some now k a c e) (
        Keeps-lru a c _ e v (get-IsBounded len_view count_eviction a.cache_bytes now k c b)
          (get-Shrinks len_view count_eviction now k c b.coherent))
]
