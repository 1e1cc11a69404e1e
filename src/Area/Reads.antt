-- ===== src/Area/Reads.antt =====
-- cache.go: what `get` and `version` read, in terms of the entries of the LRU.
use simple_cache.Prelude.{
  ℕ, ◌≡◌, ◌≤◌, refl, inl, inr, true, List, [], Option, none, some, Bytes, Option-cases,
  if◌then◌else◌, arith,
}
use simple_cache.Lru
use simple_cache.Lru.{expired}
use simple_cache.Lru.Elements.{Element, find_key}
use simple_cache.Lru.Lookup.{Looked, miss, stale, hit, get-Looked}
use simple_cache.Area.{ByteView, len_view, count_eviction, ViewCache, Area, get, version}
use simple_cache.Area.Laws.{
  IsSound, version_in, lru-IsBounded, get_of_none, get_of_some, version_of_none, version_of_some,
}

-- The entries of an area, from the most recent one; none before the first insertion.
abbrev pub entries_in : Option ViewCache → List (Element ByteView)
entries_in none = []
entries_in (some c) = c.ll

abbrev pub entries : Area → List (Element ByteView)
entries a = entries_in a.lru

-- The value of an entry until it expires.
abbrev pub live_value : ℕ → Option (Element ByteView) → Option ByteView
live_value now none = none
live_value now (some e) = if expired e.expire_at now then none else some e.value

-- Get returns what Peek returns.
pub get-peek :
    (now : ℕ) (k : Bytes) (c : ViewCache)
    → (Lru.get len_view count_eviction now k c).1 ≡ (Lru.peek len_view count_eviction now k c).1
unfolding Lru.get
get-peek now k c = elim (Option-cases (Lru.peek len_view count_eviction now k c).1) [
  | inl e ↦ ground arith
  | inr (v, e) ↦ ground arith
]

value_of_Looked :
    {r : ViewCache × Option ByteView} (now : ℕ) (k : Bytes) (c : ViewCache)
    (after : Element ByteView → List (Element ByteView))
    → Looked len_view count_eviction now k c after r
    → r.1 ≡ live_value now (find_key k c.ll)
value_of_Looked now k c after (miss f e) = ground arith
value_of_Looked now k c after (stale e f old l n r) = ground arith
value_of_Looked now k c after (hit e f live l r) = ground arith

-- Get reads the live value of the entry of the key.
pub get-live_value :
    (now : ℕ) (k : Bytes) (a : Area)
    → IsSound a
    → (get now k a).1 ≡ live_value now (find_key k (entries a))
unfolding find_key
get-live_value now k a s = elim (Option-cases a.lru) [
  | inl e ↦ rw (get_of_none now k a e, e) refl
  | inr (c, e) ↦
      let q =
        value_of_Looked now k c _
          (get-Looked len_view count_eviction now k c (lru-IsBounded a c e s).coherent) in
      rw (get_of_some now k a c e, e) q
]

-- The version that is read is that of what Get would return.
pub version-get :
    (now : ℕ) (k : Bytes) (a : Area) → (version now k a).1 ≡ version_in (get now k a).1
version-get now k a = elim (Option-cases a.lru) [
  | inl e ↦ rw (version_of_none now k a e, get_of_none now k a e) refl
  | inr (c, e) ↦ rw (version_of_some now k a c e, get_of_some now k a c e, get-peek now k c) refl
]

pub expired_later : (t now at : ℕ) → now ≤ at → expired t now ≡ true → expired t at ≡ true
expired_later t now at h e = ground (arith, e, h)
