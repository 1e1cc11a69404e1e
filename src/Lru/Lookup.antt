-- ===== src/Lru/Lookup.antt =====
-- lru.go: what `Peek` and `Get` return, and what they leave behind.
use simple_cache.Prelude.{
  ℕ, ◌≡◌, refl, ap, subst, inl, inr, true, false, List, ◌∷◌, Option, none, some, Bytes, arith,
  Option-cases, Bool-cases,
}
use simple_cache.Lru.Elements.{Element, find_key, remove_id, find_key-remove_self}
use simple_cache.Lru.Invariant.{IsCoherent, element_of-find_key, element_of-IsMember}
use simple_cache.Lru.Adding.{remove_key, remove_id-eq-remove_key}
use simple_cache.Lru.{Cache, element_of, move_to_front, peek, get, expired, remove_element}

module _ {V S : Type 0} (len : V → ℕ) (on_evicted : Bytes → V → S → S) where
  -- What a lookup of `k` at `now` may return: a miss that changes nothing, an expired entry that is
  -- removed, or the value of a live entry, which `after` says where to find.
  pub data Looked (now : ℕ) (k : Bytes) (c : Cache V S) (after : Element V → List (Element V))
      : Cache V S × Option V → Type 0 where
    miss :
        {r : Cache V S × Option V} → find_key k c.ll ≡ none → r ≡ (c, none) → Looked now k c after r
    stale :
        {r : Cache V S × Option V} (e : Element V)
        → find_key k c.ll ≡ some e
        → expired e.expire_at now ≡ true
        → r.0.ll ≡ remove_key k c.ll
        → find_key k r.0.ll ≡ none
        → r.1 ≡ none
        → Looked now k c after r
    hit :
        {r : Cache V S × Option V} (e : Element V)
        → find_key k c.ll ≡ some e
        → expired e.expire_at now ≡ false
        → r.0.ll ≡ after e
        → r.1 ≡ some e.value
        → Looked now k c after r

  -- Peek on a coherent cache: as Get, but the order stays.
  pub peek-Looked :
      (now : ℕ) (k : Bytes) (c : Cache V S)
      → IsCoherent len c
      → Looked now k c (λ e. c.ll) (peek len on_evicted now k c)
  unfolding peek remove_element
  peek-Looked now k c v = elim (Option-cases (element_of c k)) [
    | inl e ↦ miss (cc (e, element_of-find_key len c k v)) (rw (e, peek) refl)
    | inr (x, e) ↦
        let f : find_key k c.ll ≡ some x = cc (e, element_of-find_key len c k v) in
        let m = element_of-IsMember len c k x v e in
        elim (Bool-cases (expired x.expire_at now)) [
          | inl old ↦
              let same = remove_id-eq-remove_key k c.next_id c.ll x v.ids f in
              stale x f old (rw (e, peek, old) same)
                (rw (e, peek, old)
                  (subst (λ j. find_key j (remove_id x.id c.ll) ≡ none) m.keyed
                    (find_key-remove_self x.id c.ll x v.keys m.named)))
                (rw (e, peek, old) refl)
          | inr live ↦ hit x f live (rw (e, peek, live) refl) (rw (e, peek, live) refl)
        ]
  ]

  get_of_miss :
      (now : ℕ) (k : Bytes) (c c' : Cache V S)
      → peek len on_evicted now k c ≡ (c', none)
      → get len on_evicted now k c ≡ (c', none)
  unfolding get
  get_of_miss now k c c' p = ground arith

  get_of_hit :
      (now : ℕ) (k : Bytes) (c c' : Cache V S) (e : Element V) (a : V)
      → peek len on_evicted now k c ≡ (c', some a)
      → element_of c' k ≡ some e
      → get len on_evicted now k c ≡ (move_to_front e c', some a)
  unfolding get
  get_of_hit now k c c' e a p h = ground arith

  -- Get on a coherent cache: a miss changes nothing; an expired entry is removed, and nothing comes
  -- back; otherwise the entry moves to the front and its value comes back.
  pub get-Looked :
      (now : ℕ) (k : Bytes) (c : Cache V S)
      → IsCoherent len c
      → Looked now k c (λ e. e ∷ remove_key k c.ll) (get len on_evicted now k c)
  unfolding peek remove_element move_to_front
  get-Looked now k c v = elim (Option-cases (element_of c k)) [
    | inl e ↦
        let p : peek len on_evicted now k c ≡ (c, none) = rw (e, peek) refl in
        let g = get_of_miss now k c c p in miss (cc (e, element_of-find_key len c k v)) g
    | inr (x, e) ↦
        let f : find_key k c.ll ≡ some x = cc (e, element_of-find_key len c k v) in
        let m = element_of-IsMember len c k x v e in
        let same = remove_id-eq-remove_key k c.next_id c.ll x v.ids f in
        elim (Bool-cases (expired x.expire_at now)) [
          | inl old ↦
              let c' = remove_element len on_evicted x c in
              let p : peek len on_evicted now k c ≡ (c', none) = rw (e, peek, old) refl in
              let g = get_of_miss now k c c' p in
              stale x f old (rw g same)
                (rw g (
                  subst (λ j. find_key j (remove_id x.id c.ll) ≡ none) m.keyed
                    (find_key-remove_self x.id c.ll x v.keys m.named)))
                (rw g refl)
          | inr live ↦
              let p : peek len on_evicted now k c ≡ (c, some x.value) = rw (e, peek, live) refl in
              let g = get_of_hit now k c c x x.value p e in
              hit x f live (rw g (ap (λ l. x ∷ l) same)) (rw g refl)
        ]
  ]

  found_of_Looked :
      {r : Cache V S × Option V} (now : ℕ) (k : Bytes) (c : Cache V S) (x : Element V)
      → Looked now k c (λ e. c.ll) r
      → find_key k r.0.ll ≡ some x
      → r.1 ≡ some x.value
  found_of_Looked now k c x (miss f e) h = ground arith
  found_of_Looked now k c x (stale e f old l n r) h = cc
  found_of_Looked now k c x (hit e f live l r) h = ground arith

  -- Where an entry is left, Peek returned its value.
  pub peek-found :
      (now : ℕ) (k : Bytes) (c : Cache V S)
      → IsCoherent len c
      → (x : Element V) → find_key k (peek len on_evicted now k c).0.ll ≡ some x
      → (peek len on_evicted now k c).1 ≡ some x.value
  peek-found now k c v x h = found_of_Looked now k c x (peek-Looked now k c v) h
