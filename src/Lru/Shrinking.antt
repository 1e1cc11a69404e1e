-- ===== src/Lru/Shrinking.antt =====
-- lru.go: the lookups and the removals bring in no entry, and a removed key is gone.
use simple_cache.Prelude.{
  ℕ, ◌≡◌, refl, sym, subst, ◌≢◌, inl, inr, ◌⊎◌, List, ◌∷◌, ◌++◌, [], none, some, Bytes,
  Bytes-discrete, arith, Option-cases, Bool-cases,
}
use simple_cache.Lru.Elements.{
  Element, find_id, find_key, find_key-remove_self, find_key-remove_ne, find_key-find_id,
}
use simple_cache.Lru.Invariant.{
  IsCoherent, element_of-find_key, element_of-IsMember, peek-IsCoherent,
}
use simple_cache.Lru.Adding.{remove_key, Added, find_key-remove_key_ne}
use simple_cache.Lru.{Cache, element_of, peek, get, remove, remove_element, move_to_front, expired}

module _ {V S : Type 0} where
  -- Every entry of `c'` is the entry of its key in `c`.
  abbrev pub Shrinks : Cache V S → Cache V S → Type 0
  Shrinks c c' = (k : Bytes) (e : Element V) → find_key k c'.ll ≡ some e → find_key k c.ll ≡ some e

module _ {V S : Type 0} (len : V → ℕ) (on_evicted : Bytes → V → S → S) where
  remove_element-Shrinks :
      (e : Element V) (c : Cache V S)
      → find_id e.id c.ll ≡ some e
      → IsCoherent len c
      → Shrinks c (remove_element len on_evicted e c)
  unfolding remove_element
  remove_element-Shrinks e c h v = λ k x f.
      ground (arith, find_key-remove_ne e.id k c.ll e h, find_key-remove_self e.id c.ll e v.keys h)

  move_to_front-Shrinks :
      (e : Element V) (c : Cache V S)
      → find_id e.id c.ll ≡ some e
      → IsCoherent len c
      → Shrinks c (move_to_front e c)
  unfolding move_to_front find_key
  move_to_front-Shrinks e c h v = λ k x f.
      ground (arith, find_key-remove_ne e.id k c.ll e h, find_key-find_id e.id c.ll e v.keys h)

  pub peek-Shrinks :
      (now : ℕ) (k : Bytes) (c : Cache V S)
      → IsCoherent len c
      → Shrinks c (peek len on_evicted now k c).0
  unfolding peek
  peek-Shrinks now k c v = elim (Option-cases (element_of c k)) [
    | inl e ↦ rw (e, peek) (λ j x f. f)
    | inr (x, e) ↦ elim (Bool-cases (expired x.expire_at now)) [
      | inl old ↦
          rw (e, peek, old) (remove_element-Shrinks x c (element_of-IsMember len c k x v e).named v)
      | inr live ↦ rw (e, peek, live) (λ j x f. f)
    ]
  ]

  pub get-Shrinks :
      (now : ℕ) (k : Bytes) (c : Cache V S)
      → IsCoherent len c
      → Shrinks c (get len on_evicted now k c).0
  unfolding get
  get-Shrinks now k c v =
      let c' = (peek len on_evicted now k c).0 in
      let v' = peek-IsCoherent len on_evicted now k c v in
      let s = peek-Shrinks now k c v in
      elim (Option-cases (peek len on_evicted now k c).1) [
        | inl gone ↦ rw (gone, get) s
        | inr (a, found) ↦ elim (Option-cases (element_of c' k)) [
          | inl e ↦ rw (found, get, e) s
          | inr (x, e) ↦
              rw (found, get, e)
                (λ j y f.
                  s j y (
                    move_to_front-Shrinks x c' (element_of-IsMember len c' k x v' e).named v' j y
                      f))
        ]
      ]

  pub remove-Shrinks :
      (k : Bytes) (c : Cache V S) → IsCoherent len c → Shrinks c (remove len on_evicted k c)
  unfolding remove
  remove-Shrinks k c v = elim (Option-cases (element_of c k)) [
    | inl e ↦ rw (e, remove) (λ j x f. f)
    | inr (x, e) ↦
        rw (e, remove) (remove_element-Shrinks x c (element_of-IsMember len c k x v e).named v)
  ]

  -- After Remove the key is not there.
  pub find_key-remove :
      (k : Bytes) (c : Cache V S)
      → IsCoherent len c
      → find_key k (remove len on_evicted k c).ll ≡ none
  unfolding remove remove_element
  find_key-remove k c v = elim (Option-cases (element_of c k)) [
    | inl e ↦ rw (e, remove) (cc (e, element_of-find_key len c k v))
    | inr (x, e) ↦
        let m = element_of-IsMember len c k x v e in
        rw (e, remove)
          (subst (λ j. find_key j (remove_element len on_evicted x c).ll ≡ none) m.keyed
            (find_key-remove_self x.id c.ll x v.keys m.named))
  ]

  -- Remove leaves every other key's entry.
  pub find_key-remove_other :
      (k j : Bytes) (c : Cache V S)
      → k ≢ j
      → IsCoherent len c
      → find_key j (remove len on_evicted k c).ll ≡ find_key j c.ll
  unfolding remove remove_element
  find_key-remove_other k j c ne v = elim (Option-cases (element_of c k)) [
    | inl e ↦ rw (e, remove) refl
    | inr (x, e) ↦
        let m = element_of-IsMember len c k x v e in
        rw (e, remove) (find_key-remove_ne x.id j c.ll x m.named (λ q. ne (cc (q, m.keyed))))
  ]

module _ {V : Type 0} where
  -- A prefix of a list brings in no entry.
  pub find_key-append :
      (k : Bytes) (xs ys : List (Element V)) (e : Element V)
      → find_key k xs ≡ some e
      → find_key k (xs ++ ys) ≡ some e
  unfolding find_key
  find_key-append k [] ys e h = cc
  find_key-append k (x ∷ xs) ys e h = ground (arith, find_key-append k xs ys e)

module _ {V S : Type 0} (len : V → ℕ) (on_evicted : Bytes → V → S → S) where
  -- After AddUntil an entry is the new one or an old one under another key.
  pub find_key-Added :
      (k : Bytes) (a : V) (t : ℕ) (c c' : Cache V S)
      → Added len on_evicted k a t c c'
      → (j : Bytes) (e : Element V) → find_key j c'.ll ≡ some e
      → ((k ≡ j) × (e.value ≡ a) × (e.expire_at ≡ t)) ⊎ ((k ≢ j) × (find_key j c.ll ≡ some e))
  unfolding find_key
  find_key-Added k a t c c' w j e h =
      let f : find_key j (w.front ∷ remove_key k c.ll) ≡ some e =
        subst (λ l. find_key j l ≡ some e) (sym w.evicts.split)
          (find_key-append j c'.ll w.dropped e h) in
      elim (Bytes-discrete k j) [
        | yes p ↦ inl (ground (arith, w.is_new, f))
        | no p ↦ inr (p, ground (arith, w.is_new, f, find_key-remove_key_ne k j c.ll p))
      ]
