-- ===== src/Area/Insertion.antt =====
-- cache.go `add`: what may be resident after an insertion, from what was before.
use simple_cache.Prelude.{
  ℕ, ◌+◌, ◌≤◌, ◌≡◌, refl, ◌∙◌, ◌≢◌, inl, inr, some, Bytes, length, Option-cases, arith,
}
use simple_cache.Lru
use simple_cache.Lru.Elements.{Element, find_key}
use simple_cache.Lru.Bounds.{IsBounded, new_cache-IsCoherent}
use simple_cache.Lru.Shrinking.{find_key-Added}
use simple_cache.Lru.Adding.{Added, add_until-Added}
use simple_cache.Area.{ByteView, len_view, count_eviction, ViewCache, Area, remove, lru_of}
use simple_cache.Area.Laws.{IsSound, resident, resident_in, remove-Keeps, resident-remove}

-- From `a` by an insertion of `v` under `k`, with the result `r`.
pub record Inserted (k : Bytes) (v : ByteView) (a : Area) (r : Area × ByteView) : Type 0 where
  pub sound : IsSound r.0
  pub limit : r.0.cache_bytes ≡ a.cache_bytes
  pub same_bytes : r.1.b ≡ v.b
  pub same_version : r.1.version ≡ v.version
  pub own : (w : ByteView) → resident k r.0 ≡ some w → w ≡ r.1
  pub others : (j : Bytes) (w : ByteView) → k ≢ j → resident j r.0 ≡ some w → resident j a ≡ some w

pub lru_of-IsBounded : (a : Area) → IsSound a → IsBounded len_view a.cache_bytes (lru_of a)
unfolding lru_of Lru.new_cache
lru_of-IsBounded a v = elim (Option-cases a.lru) [
  | inl e ↦
      rw (e, lru_of)
        (record {
          coherent = unfold Lru.new_cache in new_cache-IsCoherent len_view a.cache_bytes 0;
          total_set = refl;
          fits = omega arith;
        })
  | inr (c, e) ↦ rw (e, lru_of) (rw e at v.bounded)
]

lru_of-resident : (k : Bytes) (a : Area) → resident_in k (some (lru_of a)) ≡ resident k a
unfolding lru_of Lru.new_cache resident_in find_key
lru_of-resident k a = ground arith

pub removed-Inserted :
    (k : Bytes) (v w : ByteView) (a : Area)
    → IsSound a
    → w.b ≡ v.b
    → w.version ≡ v.version
    → Inserted k v a (remove k a, w)
removed-Inserted k v w a s eb ev =
    let p = remove-Keeps k a s in
    record {
      sound = p.sound;
      limit = p.limit;
      same_bytes = eb;
      same_version = ev;
      own = λ x h. cc (h, resident-remove k a s);
      others = λ j x ne h. p.shrinks j x h;
    }

entry_of :
    (k : Bytes) (c : ViewCache) (x : ByteView)
    → resident_in k (some c) ≡ some x
    → (e : Element ByteView) × (find_key k c.ll ≡ some e) × (e.value ≡ x)
unfolding resident_in
entry_of k c x h = elim (Option-cases (find_key k c.ll)) [
  | inl f ↦ absurd (ground arith)
  | inr (e, f) ↦ (e, f, ground arith)
]

-- What is stored once AddUntil has returned.
stored-Inserted :
    (k : Bytes) (v : ByteView) (t : ℕ) (a : Area) (c' : ViewCache)
    → IsSound a
    → IsBounded len_view a.cache_bytes c'
    → Added len_view count_eviction k (record v { expires_at = t }) t (lru_of a) c'
    → Inserted k v a (record a { lru = some c' }, record v { expires_at = t })
unfolding resident_in
stored-Inserted k v t a c' s b w = record {
  sound = record { positive = s.positive; small = s.small; bounded = b };
  limit = refl;
  same_bytes = refl;
  same_version = refl;
  own = λ x h.
      let (e, f, q) = entry_of k c' x h in
      ground (
        arith,
        q,
        find_key-Added len_view count_eviction k (record v { expires_at = t }) t (lru_of a) c' w k e
            f,
      );
  others = λ j x ne h.
      let (e, f, q) = entry_of j c' x h in
      ground (
        arith,
        q,
        lru_of-resident j a,
        find_key-Added len_view count_eviction k (record v { expires_at = t }) t (lru_of a) c' w j e
            f,
      );
}

-- The insertion into the LRU, for a view that fits.
pub add_until-Inserted :
    (k : Bytes) (v : ByteView) (t : ℕ) (a : Area)
    → IsSound a
    → length k + len_view v ≤ a.cache_bytes
    → (c' : ViewCache) × (Lru.add_until len_view count_eviction k
          (record v { expires_at = t })
          t
          (lru_of a)
        ≡ some c')
      × Inserted k v a (record a { lru = some c' }, record v { expires_at = t })
      × Added len_view count_eviction k (record v { expires_at = t }) t (lru_of a) c'
add_until-Inserted k v t a s fit =
    let b = lru_of-IsBounded a s in
    let view = record v { expires_at = t } in
    let (c', run, w) =
      add_until-Added len_view count_eviction k view t (lru_of a) b.coherent
        (omega (arith, b.total_set, s.small)) (omega (arith, b.fits, s.small)) in
    let b' : IsBounded len_view a.cache_bytes c' = record {
      coherent = w.coherent;
      total_set = w.limit ∙ b.total_set;
      fits = ground (arith, w.evicts.fits, b.total_set, s.positive);
    } in
    (c', run, stored-Inserted k v t a c' s b' w, w)
