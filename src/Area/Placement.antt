-- ===== src/Area/Placement.antt =====
-- cache.go `add`: what an insertion stores, what it refuses, and what it leaves alone.
use simple_cache.Prelude.{
  ℕ, ◌+◌, ◌≤◌, ◌<◌, ◌≡◌, refl, ◌≢◌, ◌⊎◌, inl, inr, none, some, List, ◌∷◌, Bytes, length, ltb, leb,
  Bool-cases, subst, arith, true, false,
}
use simple_cache.Lru
use simple_cache.Lru.Elements.{Element}
use simple_cache.Lru.Eviction.{Evicts}
use simple_cache.Lru.Adding.{Added, remove_key, Evicts-front}
use simple_cache.Area.{
  ByteView, len_view, count_eviction, ViewCache, Area, remove, deadline_of, lru_of, add,
}
use simple_cache.Area.Laws.{IsSound, resident, resident_in, resident-remove, resident-remove_other}
use simple_cache.Area.Reads.{entries}
use simple_cache.Area.Insertion.{Inserted, lru_of-IsBounded, removed-Inserted, add_until-Inserted}

-- `t` is the earlier of the view's own deadline, if it has one, and that of the time to live.
pub record IsDeadline (now ttl : ℕ) (v : ByteView) (t : ℕ) : Type 0 where
  pub without : v.expires_at ≡ 0 → t ≡ now + ttl
  pub own : v.expires_at ≢ 0 → t ≤ v.expires_at
  pub bounded : t ≤ now + ttl
  pub either : (t ≡ v.expires_at) ⊎ (t ≡ now + ttl)

-- The key is not resident any more, and the other keys keep theirs.
pub record IsRemoved (k : Bytes) (a a' : Area) : Type 0 where
  pub absent : resident k a' ≡ none
  pub others : (j : Bytes) → k ≢ j → resident j a' ≡ resident j a

-- The view is in front of the other keys' entries, and the oldest of these go while the limit is passed.
pub record IsStored (k : Bytes) (v : ByteView) (a a' : Area) : Type 0 where
  pub held : resident k a' ≡ some v
  pub front : Element ByteView
  pub is_new : (front.key ≡ k) × (front.value ≡ v) × (front.expire_at ≡ v.expires_at)
  pub dropped : List (Element ByteView)
  pub evicts : Evicts len_view a.cache_bytes (front ∷ remove_key k (entries a)) (entries a') dropped

-- An insertion of `v` with the deadline `t`, and its result.
pub record Placed (later : ℕ) (k : Bytes) (v : ByteView) (t : ℕ) (a : Area) (r : Area × ByteView)
    : Type 0 where
  pub inserted : Inserted k v a r
  pub too_big :
      a.cache_bytes < length k + len_view v
      → IsRemoved k a r.0 × (r.1 ≡ record v { expires_at = 0 })
  pub late : length k + len_view v ≤ a.cache_bytes → t ≤ later → IsRemoved k a r.0 × (r.1 ≡ v)
  pub stored :
      length k + len_view v ≤ a.cache_bytes
      → later < t
      → IsStored k r.1 a r.0 × (r.1 ≡ record v { expires_at = t })

deadline_of-IsDeadline : (now ttl : ℕ) (v : ByteView) → IsDeadline now ttl v (deadline_of now ttl v)
unfolding deadline_of
deadline_of-IsDeadline now ttl v = record {
  without = λ h. ground arith;
  own = λ h. ground arith;
  bounded = ground arith;
  either = ground arith;
}

remove-IsRemoved : (k : Bytes) (a : Area) → IsSound a → IsRemoved k a (remove k a)
remove-IsRemoved k a s = record {
  absent = resident-remove k a s;
  others = λ j ne. resident-remove_other k j a ne s;
}

entries-lru_of : (a : Area) → (lru_of a).ll ≡ entries a
unfolding lru_of Lru.new_cache
entries-lru_of a = ground arith

add_until-IsStored :
    (k : Bytes) (v : ByteView) (a : Area) (c' : ViewCache)
    → IsSound a
    → length k + len_view v ≤ a.cache_bytes
    → Added len_view count_eviction k v v.expires_at (lru_of a) c'
    → IsStored k v a (record a { lru = some c' })
unfolding resident_in
add_until-IsStored k v a c' s fit w =
    let total = (lru_of-IsBounded a s).total_set in
    let found =
      Evicts-front len_view (lru_of a).bytes_total w.front (remove_key k (lru_of a).ll) c'.ll
        w.dropped (inr (ground (arith, w.is_new, total, fit))) w.evicts in
    record {
      held = ground (arith, found, w.is_new);
      front = w.front;
      is_new = w.is_new;
      dropped = w.dropped;
      evicts =
          subst (λ l. Evicts len_view a.cache_bytes (w.front ∷ remove_key k l) c'.ll w.dropped)
            (entries-lru_of a)
            (subst (λ n. Evicts len_view n (w.front ∷ remove_key k (lru_of a).ll) c'.ll w.dropped)
              total w.evicts);
    }

ahead : (t later : ℕ) → leb t later ≡ true → later < t → ⊥
ahead t later e h = ground arith

behind : (t later : ℕ) → leb t later ≡ false → t ≤ later → ⊥
behind t later e h = ground arith

-- An insertion into a sound area returns, and keeps the area sound and its limit. With the deadline `t`, the
-- earlier of the view's own and that of the time to live, it does one of three things. A view that with its
-- key exceeds the limit is refused, and given back without a deadline; one whose deadline is not ahead of the
-- second reading of the clock is refused, and given back as it came: the key is then not resident, and every
-- other key keeps its value. Any other is stored, and given back, with the deadline: its entry is in front of
-- those of the other keys, and exactly the oldest of these that the limit wants are gone.
pub add-Placed :
    (now later : ℕ) (k : Bytes) (v : ByteView) (ttl : ℕ) (a : Area)
    → IsSound a
    → (t : ℕ) × IsDeadline now ttl v t
      × ((r : Area × ByteView) × (add now later k v ttl a ≡ some r) × Placed later k v t a r)
unfolding add
add-Placed now later k v ttl a s =
    let t = deadline_of now ttl v in
    let ends = deadline_of-IsDeadline now ttl v in
    elim (Bool-cases (ltb a.cache_bytes (length k + len_view v))) [
      | inl big ↦ (
        t,
        ends,
        (
          _,
          rw (big, add) refl,
          record {
            inserted = removed-Inserted k v (record v { expires_at = 0 }) a s refl refl;
            too_big = λ h. (remove-IsRemoved k a s, refl);
            late = λ f h. absurd (ground arith);
            stored = λ f h. absurd (ground arith);
          },
        ),
      )
      | inr fits ↦ elim (Bool-cases (leb t later)) [
        | inl past ↦ (
          t,
          ends,
          (
            _,
            rw (fits, add, past) refl,
            record {
              inserted = removed-Inserted k v v a s refl refl;
              too_big = λ h. absurd (ground arith);
              late = λ f h. (remove-IsRemoved k a s, refl);
              stored = λ f h. absurd (ahead t later past h);
            },
          ),
        )
        | inr live ↦
            let room : length k + len_view v ≤ a.cache_bytes = ground arith in
            let (c', run, p, w) = add_until-Inserted k v t a s room in
            (
              t,
              ends,
              (
                _,
                rw (fits, add, live, run) refl,
                record {
                  inserted = p;
                  too_big = λ h. absurd (ground arith);
                  late = λ f h. absurd (behind t later live h);
                  stored = λ f h.
                      (add_until-IsStored k (record v { expires_at = t }) a c' s room w, refl);
                },
              ),
            )
      ]
    ]
