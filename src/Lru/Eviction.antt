-- ===== src/Lru/Eviction.antt =====
-- lru.go `AddUntil`: its loop ends, and removes from the back no more than the limit asks.
use simple_cache.Prelude.{
  ℕ, zero, suc, ◌+◌, ◌^◌, ◌≤◌, ◌<◌, ◌≡◌, refl, sym, ◌∙◌, ap, subst, ◌≢◌, ◌⊎◌, inl, inr, Bool, true,
  false, List, [], ◌∷◌, ◌++◌, none, some, Bytes, length, length-append, arith, not, ◌&&◌, ◌==◌,
  ltb64, ltb64-eq-ltb, Option-cases, Bool-cases,
}
use mathlib.Core.List.{append_assoc, append-nil}
use simple_cache.Lru.Elements.{Element, find_id, remove_id, back, IdsDistinct}
use simple_cache.Lru.Invariant.{IsCoherent, total, remove_oldest-IsCoherent}
use simple_cache.Lru.{Cache, remove_element, remove_oldest, evict}

module _ {V : Type 0} where
  back-none : (l : List (Element V)) → back l ≡ none → l ≡ []
  unfolding back
  back-none [] h = refl
  back-none (x ∷ []) h = cc
  back-none (x ∷ y ∷ l) h = absurd (ground (arith, back-none (y ∷ l) h))

  back-find_id : (l : List (Element V)) (x : Element V) → back l ≡ some x → find_id x.id l ≢ none
  unfolding back find_id
  back-find_id [] x h = cc
  back-find_id (y ∷ []) x h = ground arith
  back-find_id (y ∷ z ∷ l) x h = ground (arith, back-find_id (z ∷ l) x h)

  -- Removing the back leaves the rest in order.
  back-remove :
      (n : ℕ) (l : List (Element V)) (x : Element V)
      → IdsDistinct n l
      → back l ≡ some x
      → l ≡ remove_id x.id l ++ x ∷ []
  unfolding back remove_id
  back-remove n [] x d h = cc
  back-remove n (y ∷ []) x d h = ground arith
  back-remove n (y ∷ z ∷ l) x d h =
      ground (arith, back-remove n (z ∷ l) x d.2 h, back-find_id (z ∷ l) x h)

module _ {V : Type 0} (len : V → ℕ) where
  pub total-append : (xs ys : List (Element V)) → total len (xs ++ ys) ≡ total len xs + total len ys
  total-append [] ys = omega arith
  total-append (x ∷ xs) ys = omega (arith, total-append xs ys)

  -- What a run of evictions from `before` to `after` may do under a limit.
  pub record Evicts (limit : ℕ) (before after dropped : List (Element V)) : Type 0 where
    pub split : before ≡ after ++ dropped
    pub fits : (limit ≡ 0) ⊎ (total len after ≤ limit)
    pub needed :
        (dropped ≡ [])
        ⊎ ((x : Element V) × (rest : List (Element V)) × (dropped ≡ x ∷ rest)
            × (limit ≢ 0)
            × (limit < total len after + (length x.key + len x.value)))

  -- One more entry dropped before the others.
  snoc_needed :
      (limit : ℕ) (before mid after dropped : List (Element V)) (x : Element V)
      → before ≡ mid ++ x ∷ []
      → limit ≢ 0
      → limit < total len before
      → Evicts limit mid after dropped
      → (y : Element V) × (rest : List (Element V)) × (dropped ++ x ∷ [] ≡ y ∷ rest)
        × (limit ≢ 0)
        × (limit < total len after + (length y.key + len y.value))
  snoc_needed limit before mid after [] x e pos big s = (
    x,
    [],
    refl,
    pos,
    omega (
      arith,
      ap (total len) e,
      total-append mid (x ∷ []),
      ap (total len) s.split,
      ap (total len) (append-nil after),
    ),
  )
  snoc_needed limit before mid after (y ∷ rest) x e pos big s =
      (y, rest ++ x ∷ [], refl, pos, ground (arith, s.needed))

  Evicts-snoc :
      (limit : ℕ) (before mid after dropped : List (Element V)) (x : Element V)
      → before ≡ mid ++ x ∷ []
      → limit ≢ 0
      → limit < total len before
      → Evicts limit mid after dropped
      → Evicts limit before after (dropped ++ x ∷ [])
  Evicts-snoc limit before mid after dropped x e pos big s = record {
    split = e ∙ ap (λ l. l ++ x ∷ []) s.split ∙ append_assoc after dropped (x ∷ []);
    fits = s.fits;
    needed = inr (snoc_needed limit before mid after dropped x e pos big s);
  }

module _ {V S : Type 0} (len : V → ℕ) (on_evicted : Bytes → V → S → S) where
  abbrev over : Cache V S → Bool
  over c = not (c.bytes_total == 0) && ltb64 c.bytes_total c.byte_now

  over-total :
      (c : Cache V S)
      → IsCoherent len c
      → c.bytes_total < 2 ^ 63
      → over c ≡ true
      → (c.bytes_total ≢ 0) × (c.bytes_total < total len c.ll)
  over-total c v h o = ground (arith, ltb64-eq-ltb c.bytes_total c.byte_now, v.counted, v.small)

  not_over_fits :
      (c : Cache V S)
      → IsCoherent len c
      → c.bytes_total < 2 ^ 63
      → over c ≡ false
      → (c.bytes_total ≡ 0) ⊎ (total len c.ll ≤ c.bytes_total)
  not_over_fits c v h o = ground (arith, ltb64-eq-ltb c.bytes_total c.byte_now, v.counted, v.small)

  -- The outcome of the eviction loop from a coherent cache.
  pub record Evicted (c : Cache V S) (c' : Cache V S) : Type 0 where
    pub coherent : IsCoherent len c'
    pub limit : c'.bytes_total ≡ c.bytes_total
    pub dropped : List (Element V)
    pub evicts : Evicts len c.bytes_total c.ll c'.ll dropped

  -- One call of RemoveOldest on a cache that is over its limit.
  record OldestGone (c : Cache V S) (mid : Cache V S) : Type 0 where
    last : Element V
    split : c.ll ≡ mid.ll ++ last ∷ []
    coherent : IsCoherent len mid
    limit : mid.bytes_total ≡ c.bytes_total

  oldest_gone :
      (c : Cache V S) → IsCoherent len c → c.ll ≢ [] → OldestGone c (remove_oldest len on_evicted c)
  unfolding remove_oldest remove_element
  oldest_gone c v full = elim (Option-cases (back c.ll)) [
    | inl e ↦ absurd (full (back-none c.ll e))
    | inr (x, b) ↦ record {
      last = x;
      split = rw (b, remove_oldest) (back-remove c.next_id c.ll x v.ids b);
      coherent = remove_oldest-IsCoherent len on_evicted c v;
      limit = rw (b, remove_oldest) refl;
    }
  ]

  -- With more fuel than elements the loop ends.
  pub evict-Evicted :
      (fuel : ℕ) (c : Cache V S)
      → length c.ll < fuel
      → c.bytes_total < 2 ^ 63
      → IsCoherent len c
      → (c' : Cache V S) × (evict len on_evicted fuel c ≡ some c') × Evicted c c'
  unfolding evict
  evict-Evicted zero c f h v = absurd (omega arith)
  evict-Evicted (suc fuel) c f h v = elim (Bool-cases (over c)) [
    | inl o ↦
        let big = over-total c v h o in
        let g = oldest_gone c v (λ e. omega (arith, ap (total len) e, big.1)) in
        let mid = remove_oldest len on_evicted c in
        let shorter : length mid.ll < fuel =
          omega (arith, ap length g.split, length-append mid.ll (g.last ∷ []), f) in
        let (c', run, w) = evict-Evicted fuel mid shorter (omega (arith, g.limit)) g.coherent in
        (
          c',
          rw (o, evict) run,
          record {
            coherent = w.coherent;
            limit = w.limit ∙ g.limit;
            dropped = w.dropped ++ g.last ∷ [];
            evicts =
                Evicts-snoc len c.bytes_total c.ll mid.ll c'.ll w.dropped g.last g.split big.0 big.1
                  (subst (λ n. Evicts len n mid.ll c'.ll w.dropped) g.limit w.evicts);
          },
        )
    | inr o ↦ (
      c,
      rw (o, evict) refl,
      record {
        coherent = v;
        limit = refl;
        dropped = [];
        evicts = record {
          split = sym (append-nil c.ll);
          fits = not_over_fits c v h o;
          needed = inl refl;
        };
      },
    )
  ]
