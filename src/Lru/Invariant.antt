-- ===== src/Lru/Invariant.antt =====
-- lru.go: list, index, byte count and cursor stay in step under every method.
use simple_cache.Prelude.{
  ℕ, ap, ◌+◌, ◌^◌, ◌<◌, ◌≡◌, ◌≢◌, inl, inr, List, [], ◌∷◌, Option, none, some, Bytes, length, arith,
  Option-cases, Bool-cases,
}
use simple_cache.Prelude.Maps
use simple_cache.Prelude.Maps.{get-put, get-delete, get-empty}
use simple_cache.Lru.Elements.{
  Element, find_id, find_key, remove_id, back, IdsDistinct, KeysDistinct, find_id-remove_ne,
  find_id-remove_self, find_key-key, find_id-find_key, find_key-find_id, remove_id-IdsDistinct,
  find_key-remove_ne, find_key-remove_self, remove_id-KeysDistinct, find_id_fresh, IdsDistinct-suc,
  find_id-lt, find_id-back, prev-find_id,
}
use simple_cache.Lru.{
  Cache, element_of, move_to_front, remove_element, peek, get, remove_oldest, remove, store_entry,
  expired,
}

abbrev pub id_of : {V : Type 0} → Option (Element V) → Option ℕ
id_of none = none
id_of (some e) = some e.id

module _ {V : Type 0} (len : V → ℕ) where
  -- The logical bytes of a list.
  abbrev pub total : List (Element V) → ℕ
  total [] = 0
  total (e ∷ l) = length e.key + len e.value + total l

  pub total-remove :
      (i : ℕ) (l : List (Element V)) (e : Element V)
      → find_id i l ≡ some e
      → total (remove_id i l) + (length e.key + len e.value) ≡ total l
  unfolding find_id remove_id
  total-remove i [] e h = cc
  total-remove i (x ∷ l) e h = ground (arith, total-remove i l e)

module _ {V S : Type 0} (len : V → ℕ) where
  pub record IsCoherent (c : Cache V S) : Type 0 where
    pub ids : IdsDistinct c.next_id c.ll
    pub keys : KeysDistinct c.ll
    pub index : (k : Bytes) → Maps.get k c.cache ≡ id_of (find_key k c.ll)
    pub counted : c.byte_now ≡ total len c.ll
    pub small : total len c.ll < 2 ^ 63
    pub cursor : (i : ℕ) → c.expire_cursor ≡ some i → find_id i c.ll ≢ none

  -- The index leads to the one element with the key.
  pub element_of-find_key :
      (c : Cache V S) (k : Bytes) → IsCoherent c → element_of c k ≡ find_key k c.ll
  unfolding element_of
  element_of-find_key c k v = elim (Option-cases (find_key k c.ll)) [
    | inl e ↦ ground (arith, v.index k)
    | inr (x, e) ↦ ground (arith, v.index k, find_id-find_key k c.next_id c.ll x v.ids e)
  ]

  -- So what it leads to is in the list, under its own identity and key.
  pub record IsMember (c : Cache V S) (k : Bytes) (e : Element V) : Type 0 where
    pub named : find_id e.id c.ll ≡ some e
    pub keyed : e.key ≡ k

  pub element_of-IsMember :
      (c : Cache V S) (k : Bytes) (e : Element V)
      → IsCoherent c
      → element_of c k ≡ some e
      → IsMember c k e
  element_of-IsMember c k e v h =
      let f : find_key k c.ll ≡ some e = cc (h, element_of-find_key c k v) in
      record {
        named = find_id-find_key k c.next_id c.ll e v.ids f;
        keyed = find_key-key k c.ll e f;
      }

module _ {V S : Type 0} (len : V → ℕ) (on_evicted : Bytes → V → S → S) where
  pub remove_element-IsCoherent :
      (c : Cache V S) (e : Element V)
      → find_id e.id c.ll ≡ some e
      → IsCoherent len c
      → IsCoherent len (remove_element len on_evicted e c)
  unfolding remove_element
  remove_element-IsCoherent c e h v = record {
    ids = remove_id-IdsDistinct e.id c.next_id c.ll v.ids;
    keys = remove_id-KeysDistinct e.id c.ll v.keys;
    index = λ k. ground (
      arith,
      v.index k,
      get-delete e.key k c.cache,
      find_key-remove_ne e.id k c.ll e h,
      find_key-remove_self e.id c.ll e v.keys h,
    );
    counted = omega (arith, total-remove len e.id c.ll e h, v.counted, v.small);
    small = omega (arith, total-remove len e.id c.ll e h, v.small);
    cursor = λ i p. ground (
      arith,
      v.cursor i,
      prev-find_id c.next_id e.id i c.ll v.ids,
      find_id-remove_ne e.id i c.ll,
    );
  }

  -- Recency changes the order only.
  pub move_to_front-IsCoherent :
      (c : Cache V S) (e : Element V)
      → find_id e.id c.ll ≡ some e
      → IsCoherent len c
      → IsCoherent len (move_to_front e c)
  unfolding move_to_front find_id find_key
  move_to_front-IsCoherent c e h v = record {
    ids = (
      find_id-lt c.next_id e.id c.ll e v.ids h,
      find_id-remove_self e.id c.next_id c.ll v.ids,
      remove_id-IdsDistinct e.id c.next_id c.ll v.ids,
    );
    keys = (find_key-remove_self e.id c.ll e v.keys h, remove_id-KeysDistinct e.id c.ll v.keys);
    index = λ k. ground (
      arith,
      v.index k,
      find_key-remove_ne e.id k c.ll e h,
      find_key-find_id e.id c.ll e v.keys h,
    );
    counted = omega (arith, total-remove len e.id c.ll e h, v.counted);
    small = omega (arith, total-remove len e.id c.ll e h, v.small);
    cursor = λ i p. ground (arith, v.cursor i, find_id-remove_ne e.id i c.ll);
  }

  pub peek-IsCoherent :
      (now : ℕ) (k : Bytes) (c : Cache V S)
      → IsCoherent len c
      → IsCoherent len (peek len on_evicted now k c).0
  unfolding peek
  peek-IsCoherent now k c v = elim (Option-cases (element_of c k)) [
    | inl e ↦ rw (e, peek) v
    | inr (x, e) ↦ elim (Bool-cases (expired x.expire_at now)) [
      | inl old ↦
          rw (e, peek, old)
            (remove_element-IsCoherent c x (element_of-IsMember len c k x v e).named v)
      | inr live ↦ rw (e, peek, live) v
    ]
  ]

  pub get-IsCoherent :
      (now : ℕ) (k : Bytes) (c : Cache V S)
      → IsCoherent len c
      → IsCoherent len (get len on_evicted now k c).0
  unfolding get
  get-IsCoherent now k c v =
      let c' = (peek len on_evicted now k c).0 in
      let v' = peek-IsCoherent now k c v in
      elim (Option-cases (peek len on_evicted now k c).1) [
        | inl miss ↦ rw (miss, get) v'
        | inr (a, hit) ↦ elim (Option-cases (element_of c' k)) [
          | inl e ↦ rw (hit, get, e) v'
          | inr (x, e) ↦
              rw (hit, get, e)
                (move_to_front-IsCoherent c' x (element_of-IsMember len c' k x v' e).named v')
        ]
      ]

  pub remove-IsCoherent :
      (k : Bytes) (c : Cache V S) → IsCoherent len c → IsCoherent len (remove len on_evicted k c)
  unfolding remove
  remove-IsCoherent k c v = elim (Option-cases (element_of c k)) [
    | inl e ↦ rw (e, remove) v
    | inr (x, e) ↦
        rw (e, remove) (remove_element-IsCoherent c x (element_of-IsMember len c k x v e).named v)
  ]

  pub remove_oldest-IsCoherent :
      (c : Cache V S) → IsCoherent len c → IsCoherent len (remove_oldest len on_evicted c)
  unfolding remove_oldest
  remove_oldest-IsCoherent c v = elim (Option-cases (back c.ll)) [
    | inl e ↦ rw (e, remove_oldest) v
    | inr (x, e) ↦
        rw (e, remove_oldest)
          (remove_element-IsCoherent c x (find_id-back c.next_id c.ll x v.ids e) v)
  ]

  -- A new entry, or a new value for an old one, that leaves the sum below 2 ^ 63.
  pub store_entry-IsCoherent :
      (k : Bytes) (a : V) (t : ℕ) (c : Cache V S)
      → total len c.ll + (length k + len a) < 2 ^ 63
      → IsCoherent len c
      → IsCoherent len (store_entry len on_evicted k a t c)
  unfolding store_entry find_id find_key
  store_entry-IsCoherent k a t c room v = elim (Option-cases (element_of c k)) [
    | inl e ↦
        let f : find_key k c.ll ≡ none = cc (e, element_of-find_key len c k v) in
        rw (e, store_entry)
          (record {
            ids = (
              omega arith,
              find_id_fresh c.next_id c.next_id c.ll v.ids (omega arith),
              IdsDistinct-suc c.next_id c.ll v.ids,
            );
            keys = (f, v.keys);
            index = λ j. ground (arith, v.index j, get-put k j c.next_id c.cache);
            counted = omega (arith, v.counted);
            small = omega arith;
            cursor = λ i p. ground (arith, v.cursor i);
          })
    | inr (x, e) ↦
        let m = element_of-IsMember len c k x v e in
        rw (e, store_entry)
          (record {
            ids = (
              find_id-lt c.next_id x.id c.ll x v.ids m.named,
              find_id-remove_self x.id c.next_id c.ll v.ids,
              remove_id-IdsDistinct x.id c.next_id c.ll v.ids,
            );
            keys = (
              find_key-remove_self x.id c.ll x v.keys m.named,
              remove_id-KeysDistinct x.id c.ll v.keys,
            );
            index = λ j. ground (
              arith,
              v.index j,
              find_key-remove_ne x.id j c.ll x m.named,
              find_key-find_id x.id c.ll x v.keys m.named,
            );
            counted = omega (
              arith,
              total-remove len x.id c.ll x m.named,
              v.counted,
              v.small,
              ap length m.keyed,
            );
            small = omega (arith, total-remove len x.id c.ll x m.named, ap length m.keyed);
            cursor = λ i p. ground (arith, v.cursor i, find_id-remove_ne x.id i c.ll);
          })
  ]
