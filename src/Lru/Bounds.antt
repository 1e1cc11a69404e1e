-- ===== src/Lru/Bounds.antt =====
-- lru.go: every method keeps the cache coherent and within its byte limit.
use simple_cache.Prelude.{
  ℕ, ◌+◌, ◌^◌, ◌≤◌, ◌<◌, ◌≡◌, refl, ◌∙◌, inl, inr, some, Bytes, length, arith, Option-cases,
  Bool-cases,
}
use simple_cache.Lru.Elements.{Element, back, find_id, find_key, find_id-back}
use simple_cache.Prelude.Maps.{get-empty}
use simple_cache.Lru.Invariant.{
  IsCoherent, total, total-remove, move_to_front-IsCoherent, element_of-IsMember,
  remove_element-IsCoherent,
}
use simple_cache.Lru.Adding.{add_until-Added}
use simple_cache.Lru.{
  Cache, new_cache, element_of, move_to_front, peek, get, remove_oldest, remove, add_until, expired,
  remove_element,
}

pub new_cache-IsCoherent :
    {V S : Type 0} (len : V → ℕ) (n : ℕ) (s : S) → IsCoherent len (new_cache n s)
unfolding new_cache find_key
new_cache-IsCoherent len n s = record {
  ids = tt;
  keys = tt;
  index = λ k. get-empty k;
  counted = refl;
  small = omega arith;
  cursor = λ i p. cc;
}

module _ {V S : Type 0} (len : V → ℕ) where
  -- Coherent, under a limit that holds.
  pub record IsBounded (limit : ℕ) (c : Cache V S) : Type 0 where
    pub coherent : IsCoherent len c
    pub total_set : c.bytes_total ≡ limit
    pub fits : total len c.ll ≤ limit

module _ {V S : Type 0} (len : V → ℕ) (on_evicted : Bytes → V → S → S) where
  pub add_until-IsBounded :
      (limit : ℕ) (k : Bytes) (a : V) (t : ℕ) (c : Cache V S)
      → 0 < limit
      → limit < 2 ^ 62
      → length k + len a < 2 ^ 62
      → IsBounded len limit c
      → (c' : Cache V S) × (add_until len on_evicted k a t c ≡ some c') × IsBounded len limit c'
  add_until-IsBounded limit k a t c pos small fit b =
      let (c', run, w) =
        add_until-Added len on_evicted k a t c b.coherent (omega (arith, b.total_set))
          (omega (arith, b.fits)) in
      (
        c',
        run,
        record {
          coherent = w.coherent;
          total_set = w.limit ∙ b.total_set;
          fits = ground (arith, w.evicts.fits, b.total_set);
        },
      )

  pub remove_element-IsBounded :
      (limit : ℕ) (e : Element V) (c : Cache V S)
      → find_id e.id c.ll ≡ some e
      → IsBounded len limit c
      → IsBounded len limit (remove_element len on_evicted e c)
  unfolding remove_element
  remove_element-IsBounded limit e c h b = record {
    coherent = remove_element-IsCoherent len on_evicted c e h b.coherent;
    total_set = b.total_set;
    fits = omega (arith, total-remove len e.id c.ll e h, b.fits);
  }

  pub peek-IsBounded :
      (limit now : ℕ) (k : Bytes) (c : Cache V S)
      → IsBounded len limit c
      → IsBounded len limit (peek len on_evicted now k c).0
  unfolding peek
  peek-IsBounded limit now k c b = elim (Option-cases (element_of c k)) [
    | inl e ↦ rw (e, peek) b
    | inr (x, e) ↦
        let m = element_of-IsMember len c k x b.coherent e in
        elim (Bool-cases (expired x.expire_at now)) [
          | inl old ↦ rw (e, peek, old) (remove_element-IsBounded limit x c m.named b)
          | inr live ↦ rw (e, peek, live) b
        ]
  ]

  pub move_to_front-IsBounded :
      (limit : ℕ) (e : Element V) (c : Cache V S)
      → find_id e.id c.ll ≡ some e
      → IsBounded len limit c
      → IsBounded len limit (move_to_front e c)
  unfolding move_to_front
  move_to_front-IsBounded limit e c h b = record {
    coherent = move_to_front-IsCoherent len on_evicted c e h b.coherent;
    total_set = b.total_set;
    fits = omega (arith, total-remove len e.id c.ll e h, b.fits);
  }

  pub get-IsBounded :
      (limit now : ℕ) (k : Bytes) (c : Cache V S)
      → IsBounded len limit c
      → IsBounded len limit (get len on_evicted now k c).0
  unfolding get
  get-IsBounded limit now k c b =
      let c' = (peek len on_evicted now k c).0 in
      let b' = peek-IsBounded limit now k c b in
      elim (Option-cases (peek len on_evicted now k c).1) [
        | inl gone ↦ rw (gone, get) b'
        | inr (a, found) ↦ elim (Option-cases (element_of c' k)) [
          | inl e ↦ rw (found, get, e) b'
          | inr (x, e) ↦
              rw (found, get, e)
                (move_to_front-IsBounded limit x c'
                  (element_of-IsMember len c' k x b'.coherent e).named b')
        ]
      ]

  pub remove-IsBounded :
      (limit : ℕ) (k : Bytes) (c : Cache V S)
      → IsBounded len limit c
      → IsBounded len limit (remove len on_evicted k c)
  unfolding remove
  remove-IsBounded limit k c b = elim (Option-cases (element_of c k)) [
    | inl e ↦ rw (e, remove) b
    | inr (x, e) ↦
        rw (e, remove)
          (remove_element-IsBounded limit x c (element_of-IsMember len c k x b.coherent e).named b)
  ]

  pub remove_oldest-IsBounded :
      (limit : ℕ) (c : Cache V S)
      → IsBounded len limit c
      → IsBounded len limit (remove_oldest len on_evicted c)
  unfolding remove_oldest
  remove_oldest-IsBounded limit c b = elim (Option-cases (back c.ll)) [
    | inl e ↦ rw (e, remove_oldest) b
    | inr (x, e) ↦
        rw (e, remove_oldest)
          (remove_element-IsBounded limit x c (find_id-back c.next_id c.ll x b.coherent.ids e) b)
  ]
