-- ===== src/Lru/Adding.antt =====
-- lru.go `AddUntil` as a whole: the entry goes to the front, once, and the oldest make room.
use simple_cache.Prelude.{
  ℕ, suc, ◌+◌, ◌^◌, ◌≤◌, ◌<◌, ◌≡◌, refl, ◌∙◌, subst, ◌≢◌, ◌⊎◌, inl, inr, ite, List, [], ◌∷◌, none,
  some, false, Bytes, Bytes-discrete, length, arith, Option-cases,
}
use simple_cache.Lru.Elements.{Element, find_id, find_key, remove_id, IdsDistinct, find_id-find_key}
use simple_cache.Lru.Invariant.{
  IsCoherent, total, element_of-find_key, element_of-IsMember, store_entry-IsCoherent,
}
use simple_cache.Lru.Eviction.{Evicts, evict-Evicted}
use simple_cache.Lru.{Cache, element_of, store_entry, add_until, peek, expired}

module _ {V : Type 0} where
  -- The list without the entry of a key.
  pub remove_key : Bytes → List (Element V) → List (Element V)
  remove_key k [] = []
  remove_key k (x ∷ l) = ite (Bytes-discrete x.key k) l (x ∷ remove_key k l)

  remove_key_absent : (k : Bytes) (l : List (Element V)) → find_key k l ≡ none → remove_key k l ≡ l
  unfolding remove_key find_key
  remove_key_absent k [] h = refl
  remove_key_absent k (x ∷ l) h = ground (arith, remove_key_absent k l)

  pub remove_id-eq-remove_key :
      (k : Bytes) (n : ℕ) (l : List (Element V)) (x : Element V)
      → IdsDistinct n l
      → find_key k l ≡ some x
      → remove_id x.id l ≡ remove_key k l
  unfolding remove_key remove_id find_key find_id
  remove_id-eq-remove_key k n [] x d h = cc
  remove_id-eq-remove_key k n (y ∷ l) x d h =
      ground (arith, remove_id-eq-remove_key k n l x d.2, find_id-find_key k n l x d.2)

  pub find_key-remove_key_ne :
      (k j : Bytes) (l : List (Element V)) → k ≢ j → find_key j (remove_key k l) ≡ find_key j l
  unfolding remove_key find_key
  find_key-remove_key_ne k j [] h = refl
  find_key-remove_key_ne k j (x ∷ l) h = ground (arith, find_key-remove_key_ne k j l h)

module _ {V S : Type 0} (len : V → ℕ) (on_evicted : Bytes → V → S → S) where
  -- What AddUntil makes of a cache.
  pub record Added (k : Bytes) (a : V) (t : ℕ) (c : Cache V S) (c' : Cache V S) : Type 0 where
    pub coherent : IsCoherent len c'
    pub limit : c'.bytes_total ≡ c.bytes_total
    pub front : Element V
    pub is_new : (front.key ≡ k) × (front.value ≡ a) × (front.expire_at ≡ t)
    pub dropped : List (Element V)
    pub evicts : Evicts len c.bytes_total (front ∷ remove_key k c.ll) c'.ll dropped

  record Stored (k : Bytes) (a : V) (t : ℕ) (c : Cache V S) (c' : Cache V S) : Type 0 where
    limit : c'.bytes_total ≡ c.bytes_total
    front : Element V
    is_new : (front.key ≡ k) × (front.value ≡ a) × (front.expire_at ≡ t)
    list : c'.ll ≡ front ∷ remove_key k c.ll

  store_entry-Stored :
      (k : Bytes) (a : V) (t : ℕ) (c : Cache V S)
      → IsCoherent len c
      → Stored k a t c (store_entry len on_evicted k a t c)
  unfolding store_entry
  store_entry-Stored k a t c v = elim (Option-cases (element_of c k)) [
    | inl e ↦
        let f : find_key k c.ll ≡ none = cc (e, element_of-find_key len c k v) in
        record {
          limit = rw (e, store_entry) refl;
          front = record { id = c.next_id; key = k; value = a; expire_at = t };
          is_new = (refl, refl, refl);
          list = rw (e, store_entry) (rw (remove_key_absent k c.ll f) refl);
        }
    | inr (x, e) ↦
        let f : find_key k c.ll ≡ some x = cc (e, element_of-find_key len c k v) in
        record {
          limit = rw (e, store_entry) refl;
          front = record { id = x.id; key = x.key; value = a; expire_at = t };
          is_new = ((element_of-IsMember len c k x v e).keyed, refl, refl);
          list = rw (e, store_entry) (rw (remove_id-eq-remove_key k c.next_id c.ll x v.ids f) refl);
        }
  ]

  -- On a coherent cache AddUntil returns. The new entry stands before the other keys' entries, the
  -- entries that go are the oldest, they go only while the limit is passed, and a limit that is not
  -- zero holds afterwards.
  pub add_until-Added :
      (k : Bytes) (a : V) (t : ℕ) (c : Cache V S)
      → IsCoherent len c
      → c.bytes_total < 2 ^ 63
      → total len c.ll + (length k + len a) < 2 ^ 63
      → (c' : Cache V S) × (add_until len on_evicted k a t c ≡ some c') × Added k a t c c'
  unfolding add_until
  add_until-Added k a t c v h room =
      let mid = store_entry len on_evicted k a t c in
      let s = store_entry-Stored k a t c v in
      let (c', run, w) =
        evict-Evicted len on_evicted (suc (length mid.ll)) mid (omega arith)
          (omega (arith, s.limit)) (store_entry-IsCoherent len on_evicted k a t c room v) in
      (
        c',
        run,
        record {
          coherent = w.coherent;
          limit = w.limit ∙ s.limit;
          front = s.front;
          is_new = s.is_new;
          dropped = w.dropped;
          evicts =
              subst (λ l. Evicts len c.bytes_total l c'.ll w.dropped) s.list
                (subst (λ n. Evicts len n mid.ll c'.ll w.dropped) s.limit w.evicts);
        },
      )

module _ {V : Type 0} (len : V → ℕ) where
  pub total-remove_key :
      (k : Bytes) (l : List (Element V)) → total len (remove_key k l) ≤ total len l
  unfolding remove_key
  total-remove_key k [] = omega arith
  total-remove_key k (x ∷ l) = ground (arith, total-remove_key k l)

  -- A list that starts with an entry within the limit keeps that entry.
  pub Evicts-front :
      (limit : ℕ) (x : Element V) (rest after dropped : List (Element V))
      → (limit ≡ 0) ⊎ (length x.key + len x.value ≤ limit)
      → Evicts len limit (x ∷ rest) after dropped
      → find_key x.key after ≡ some x
  unfolding find_key
  Evicts-front limit x rest [] dropped fit s = absurd (ground (arith, s.split, s.needed))
  Evicts-front limit x rest (y ∷ after) dropped fit s = ground (arith, s.split)

module _ {V S : Type 0} (len : V → ℕ) (on_evicted : Bytes → V → S → S) where
  -- Peek right after AddUntil of an entry within the limit returns the value, until it expires.
  pub peek-add_until :
      (k : Bytes) (a : V) (t now : ℕ) (c : Cache V S)
      → IsCoherent len c
      → c.bytes_total < 2 ^ 63
      → total len c.ll + (length k + len a) < 2 ^ 63
      → (c.bytes_total ≡ 0) ⊎ (length k + len a ≤ c.bytes_total)
      → expired t now ≡ false
      → (c' : Cache V S) × (add_until len on_evicted k a t c ≡ some c')
        × (peek len on_evicted now k c' ≡ (c', some a))
  unfolding peek
  peek-add_until k a t now c v h room fit live =
      let (c', run, w) = add_until-Added len on_evicted k a t c v h room in
      let kept =
        Evicts-front len c.bytes_total w.front (remove_key k c.ll) c'.ll w.dropped
          (ground (arith, w.is_new, fit)) w.evicts in
      let found : element_of c' k ≡ some w.front =
        cc (element_of-find_key len c' k w.coherent, kept, w.is_new.0) in
      (c', run, rw (found, peek) (ground (arith, w.is_new, live)))
