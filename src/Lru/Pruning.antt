-- ===== src/Lru/Pruning.antt =====
-- lru.go `PruneExpired`: only what has expired goes, and the counts are exact.
use simple_cache.Prelude.{
  ℕ, zero, suc, ◌+◌, ◌-◌, ◌≤◌, ◌<◌, ◌≡◌, refl, subst, ◌∙◌, inl, inr, Bool, true, false, some, Bytes,
  length, arith, Option-cases, Bool-cases, ltb, if◌then◌else◌, min, ◌==◌, ◌||◌,
}
use simple_cache.Lru.Elements.{
  Element, find_id, find_key, prev, find_id-back, find_id-id, prev-find_id_in, length-remove_id,
  find_key-remove_ne, find_key-remove_self, find_key-find_id,
}
use simple_cache.Lru.Invariant.{IsCoherent, total, total-remove, remove_element-IsCoherent}
use simple_cache.Lru.{
  Cache, prune_at, cursor_element, prune_loop, prune_expired, expired, remove_element,
}

cursor_element-named :
    {V S : Type 0} (len : V → ℕ) (c : Cache V S) (e : Element V)
    → IsCoherent len c
    → cursor_element c ≡ some e
    → find_id e.id c.ll ≡ some e
unfolding cursor_element
cursor_element-named len c e v h = elim (Option-cases c.expire_cursor) [
  | inl p ↦ find_id-back c.next_id c.ll e v.ids (ground arith)
  | inr (i, p) ↦ ground (arith, find_id-id i c.ll e)
]

-- From `c` to `c'` with `gone` removals, judged at `now`.
pub record Pruned {V S : Type 0} (len : V → ℕ) (now gone : ℕ) (c c' : Cache V S) : Type 0 where
  pub coherent : IsCoherent len c'
  pub limit : c'.bytes_total ≡ c.bytes_total
  pub counted : length c'.ll + gone ≡ length c.ll
  pub smaller : total len c'.ll ≤ total len c.ll
  pub live :
      (k : Bytes) (e : Element V)
      → find_key k c.ll ≡ some e
      → expired e.expire_at now ≡ false
      → find_key k c'.ll ≡ some e
  pub old : (k : Bytes) (e : Element V) → find_key k c'.ll ≡ some e → find_key k c.ll ≡ some e

module _ {V S : Type 0} (len : V → ℕ) (now : ℕ) where
  Pruned-refl : (c : Cache V S) → IsCoherent len c → Pruned len now 0 c c
  Pruned-refl c v = record {
    coherent = v;
    limit = refl;
    counted = omega arith;
    smaller = omega arith;
    live = λ k e h l. h;
    old = λ k e h. h;
  }

  Pruned-trans :
      (m n : ℕ) (a b c : Cache V S)
      → Pruned len now m a b
      → Pruned len now n b c
      → Pruned len now (m + n) a c
  Pruned-trans m n a b c p q = record {
    coherent = q.coherent;
    limit = q.limit ∙ p.limit;
    counted = omega (arith, p.counted, q.counted);
    smaller = omega (arith, p.smaller, q.smaller);
    live = λ k e h l. q.live k e (p.live k e h l) l;
    old = λ k e h. p.old k e (q.old k e h);
  }

  -- Moving the cursor back changes nothing else.
  retreat-Pruned :
      (i : ℕ) (c : Cache V S)
      → IsCoherent len c
      → Pruned len now 0 c (record c { expire_cursor = prev i c.ll })
  retreat-Pruned i c v = record {
    coherent = record {
      ids = v.ids;
      keys = v.keys;
      index = v.index;
      counted = v.counted;
      small = v.small;
      cursor = λ j p. prev-find_id_in i j c.ll p;
    };
    limit = refl;
    counted = omega arith;
    smaller = omega arith;
    live = λ k e h l. h;
    old = λ k e h. h;
  }

module _ {V S : Type 0} (len : V → ℕ) (on_evicted : Bytes → V → S → S) (now : ℕ) where
  remove_element-Pruned :
      (e : Element V) (c : Cache V S)
      → find_id e.id c.ll ≡ some e
      → expired e.expire_at now ≡ true
      → IsCoherent len c
      → Pruned len now 1 c (remove_element len on_evicted e c)
  unfolding remove_element
  remove_element-Pruned e c h gone v = record {
    coherent = remove_element-IsCoherent len on_evicted c e h v;
    limit = refl;
    counted = omega (arith, length-remove_id e.id c.ll e h);
    smaller = omega (arith, total-remove len e.id c.ll e h);
    live = λ k x f l.
        ground (arith, find_key-remove_ne e.id k c.ll e h, find_key-find_id e.id c.ll e v.keys h);
    old = λ k x f.
        ground
          (arith, find_key-remove_ne e.id k c.ll e h, find_key-remove_self e.id c.ll e v.keys h);
  }

  -- One round removes its element exactly when that has expired.
  prune_at-Pruned :
      (e : Element V) (c : Cache V S)
      → find_id e.id c.ll ≡ some e
      → IsCoherent len c
      → let r = prune_at len on_evicted now e c in Pruned len now (if r.1 then 1 else 0) c r.0
  unfolding prune_at
  prune_at-Pruned e c h v =
      let p = retreat-Pruned len now e.id c v in
      elim (Bool-cases (expired e.expire_at now)) [
        | inl old ↦
            rw (old, prune_at)
              (Pruned-trans len now 0 1 c _ _ p (
                remove_element-Pruned e (record c { expire_cursor = prev e.id c.ll }) h old
                  p.coherent))
        | inr live ↦ rw (live, prune_at) p
      ]

  -- What a run of rounds does: at most `rounds` checks, and one removal counted for each entry gone.
  pub record Rounds (c : Cache V S) (rounds checked removed : ℕ) (r : Cache V S × ℕ × ℕ)
      : Type 0 where
    pub gone : ℕ
    pub pruned : Pruned len now gone c r.0
    pub within : r.1 ≤ checked + rounds
    pub each : checked + gone ≤ r.1
    pub reported : r.2 ≡ removed + gone

  Rounds-stop :
      (c : Cache V S) (rounds checked removed : ℕ)
      → IsCoherent len c
      → Rounds c rounds checked removed (c, checked, removed)
  Rounds-stop c rounds checked removed v = record {
    gone = 0;
    pruned = Pruned-refl len now c v;
    within = omega arith;
    each = omega arith;
    reported = omega arith;
  }

  -- A round, and then the rest.
  Rounds-step :
      (c mid : Cache V S) (rounds checked removed : ℕ) (b : Bool) (r : Cache V S × ℕ × ℕ)
      → Pruned len now (if b then 1 else 0) c mid
      → Rounds mid rounds (suc checked) (if b then suc removed else removed) r
      → Rounds c (suc rounds) checked removed r
  Rounds-step c mid rounds checked removed true r p w = record {
    gone = 1 + w.gone;
    pruned = Pruned-trans len now 1 w.gone c mid r.0 p w.pruned;
    within = omega (arith, w.within);
    each = omega (arith, w.each);
    reported = omega (arith, w.reported);
  }
  Rounds-step c mid rounds checked removed false r p w = record {
    gone = 0 + w.gone;
    pruned = Pruned-trans len now 0 w.gone c mid r.0 p w.pruned;
    within = omega (arith, w.within);
    each = omega (arith, w.each);
    reported = omega (arith, w.reported);
  }

  prune_loop-Rounds :
      (clock : ℕ → ℕ) (deadline rounds i checked removed : ℕ) (c : Cache V S)
      → IsCoherent len c
      → Rounds c rounds checked removed
          (prune_loop len on_evicted clock deadline now rounds i checked removed c)
  unfolding prune_loop
  prune_loop-Rounds clock deadline zero i checked removed c v = Rounds-stop c 0 checked removed v
  prune_loop-Rounds clock deadline (suc rounds) i checked removed c v =
      elim (Bool-cases (ltb (clock i) deadline)) [
        | inl time ↦ elim (Option-cases (cursor_element c)) [
          | inl e ↦ rw (time, e, prune_loop) (Rounds-stop c (suc rounds) checked removed v)
          | inr (x, e) ↦
              let r = prune_at len on_evicted now x c in
              let p = prune_at-Pruned x c (cursor_element-named len c x v e) v in
              rw (time, e, prune_loop)
                (Rounds-step c r.0 rounds checked removed r.1 _ p (
                  prune_loop-Rounds clock deadline rounds (suc i) (suc checked)
                    (if r.1 then suc removed else removed) r.0 p.coherent))
        ]
        | inr late ↦ rw (late, prune_loop) (Rounds-stop c (suc rounds) checked removed v)
      ]

  -- On a coherent cache PruneExpired keeps it coherent, removes no entry that is alive at `now` and adds none,
  -- checks at most `limit` entries, and reports exactly the entries that are gone.
  pub prune_expired-Rounds :
      (clock : ℕ → ℕ) (limit budget : ℕ) (c : Cache V S)
      → IsCoherent len c
      → Rounds c limit 0 0 (prune_expired len on_evicted clock now limit budget c)
  unfolding prune_expired
  prune_expired-Rounds clock limit budget c v = elim (Bool-cases (limit == 0 || budget == 0)) [
    | inl none_left ↦ rw none_left (Rounds-stop c limit 0 0 v)
    | inr some_left ↦
        let w = prune_loop-Rounds clock (clock 0 + budget) (min limit (length c.ll)) 1 0 0 c v in
        rw some_left (record {
          gone = w.gone;
          pruned = w.pruned;
          within = omega (arith, w.within);
          each = w.each;
          reported = w.reported;
        })
  ]

  -- Where time and checks are left, an expired entry under the cursor is removed.
  prune_at-expired :
      (e : Element V) (c : Cache V S)
      → expired e.expire_at now ≡ true
      → (prune_at len on_evicted now e c).1 ≡ true
  unfolding prune_at
  prune_at-expired e c old = rw (old, prune_at) refl

  prune_loop_first :
      (clock : ℕ → ℕ) (deadline rounds i : ℕ) (c : Cache V S) (e : Element V)
      → IsCoherent len c
      → ltb (clock i) deadline ≡ true
      → cursor_element c ≡ some e
      → expired e.expire_at now ≡ true
      → 1 ≤ (prune_loop len on_evicted clock deadline now (suc rounds) i 0 0 c).2
  unfolding prune_loop
  prune_loop_first clock deadline rounds i c e v time found old =
      let r = prune_at len on_evicted now e c in
      let p = prune_at-Pruned e c (cursor_element-named len c e v found) v in
      let w = prune_loop-Rounds clock deadline rounds (suc i) 1 1 r.0 p.coherent in
      rw (time, found, prune_loop, prune_at-expired e c old) (omega (arith, w.reported))

  pub prune_expired_first :
      (clock : ℕ → ℕ) (limit budget : ℕ) (c : Cache V S) (e : Element V)
      → IsCoherent len c
      → 0 < limit
      → 0 < budget
      → clock 1 < clock 0 + budget
      → cursor_element c ≡ some e
      → expired e.expire_at now ≡ true
      → 1 ≤ (prune_expired len on_evicted clock now limit budget c).2
  unfolding prune_expired
  prune_expired_first clock limit budget c e v some_limit some_budget time found old =
      let n = min limit (length c.ll) in
      let one : 1 ≤ n =
        omega (
          arith,
          some_limit,
          length-remove_id e.id c.ll e (cursor_element-named len c e v found),
        ) in
      let round : suc (n - 1) ≡ n = omega (arith, one) in
      let go : (limit == 0 || budget == 0) ≡ false = ground (arith, some_limit, some_budget) in
      rw go (
        subst (λ (r : ℕ). 1 ≤ (prune_loop len on_evicted clock (clock 0 + budget) now r 1 0 0 c).2)
          round
          (prune_loop_first clock (clock 0 + budget) (n - 1) 1 c e v (ground (arith, time)) found
            old))
