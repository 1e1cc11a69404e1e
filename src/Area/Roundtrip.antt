-- ===== src/Area/Roundtrip.antt =====
-- cache.go: `get` after `add`.
use simple_cache.Prelude.{
  ℕ, ◌+◌, ◌≤◌, ◌<◌, ◌≡◌, refl, ◌∙◌, ap, inr, false, Option, some, Bytes, length, ltb, leb, arith,
}
use simple_cache.Lru
use simple_cache.Lru.{expired}
use simple_cache.Lru.Adding.{peek-add_until}
use simple_cache.Area.{
  ByteView, len_view, count_eviction, ViewCache, Area, deadline_of, lru_of, add, get,
}
use simple_cache.Area.Laws.{IsSound, get_of_some}
use simple_cache.Area.Reads.{get-peek}
use simple_cache.Area.Insertion.{lru_of-IsBounded}

get_seen :
    (at : ℕ) (k : Bytes) (a : Area) (c : ViewCache) (w : ByteView)
    → Lru.peek len_view count_eviction at k c ≡ (c, some w)
    → (get at k (record a { lru = some c })).1 ≡ some w
get_seen at k a c w e =
    ap (λ (r : Area × Option ByteView). r.1) (get_of_some at k (record a { lru = some c }) c refl)
    ∙ get-peek at k c
    ∙ ap (λ (r : ViewCache × Option ByteView). r.1) e

expired_before : (t at : ℕ) → at < t → expired t at ≡ false
expired_before t at h = ground arith

-- An insertion into a sound area of a view that fits, whose deadline is not past, returns, and stores the
-- view with its deadline: until that deadline `get` gives it back.
pub get-add :
    (now later at : ℕ) (k : Bytes) (v : ByteView) (ttl : ℕ) (a : Area)
    → IsSound a
    → length k + len_view v ≤ a.cache_bytes
    → later < deadline_of now ttl v
    → at < deadline_of now ttl v
    → (r : Area × ByteView) × (add now later k v ttl a ≡ some r)
      × (r.1 ≡ record v { expires_at = deadline_of now ttl v })
      × ((get at k r.0).1 ≡ some r.1)
unfolding add
get-add now later at k v ttl a s fit live early =
    let t = deadline_of now ttl v in
    let view : ByteView = record v { expires_at = t } in
    let b = lru_of-IsBounded a s in
    let (c', run, seen) =
      peek-add_until len_view count_eviction k view t at (lru_of a) b.coherent
        (omega (arith, b.total_set, s.small)) (omega (arith, b.fits, s.small))
        (inr (omega (arith, b.total_set, fit))) (expired_before t at early) in
    let a' : Area = record a { lru = some c' } in
    let fits : ltb a.cache_bytes (length k + len_view v) ≡ false = ground (arith, fit) in
    let ahead : leb t later ≡ false = ground (arith, live) in
    ((a', view), rw (fits, add, ahead, run) refl, refl, get_seen at k a c' view seen)
