-- ===== src/Lru/Calls.antt =====
-- lru.go: any sequence of calls on a cache that New made.
use simple_cache.Prelude.{
  ℕ, ◌+◌, ◌^◌, ◌<◌, ◌≡◌, refl, ◌∙◌, List, [], ◌∷◌, Option, none, some, Bytes, length, arith, ltb,
  if◌then◌else◌,
}
use simple_cache.Lru.Pruning.{prune_expired-Rounds}
use simple_cache.Lru.{
  Cache, new_cache, peek, get, remove_oldest, remove, add_until, add, prune_expired,
}
use simple_cache.Lru.Bounds.{
  IsBounded, new_cache-IsCoherent, add_until-IsBounded, peek-IsBounded, get-IsBounded,
  remove-IsBounded, remove_oldest-IsBounded,
}

module _ {V S : Type 0} (len : V → ℕ) (on_evicted : Bytes → V → S → S) where
  -- The methods, with what a caller passes them.
  pub data Call : Type 0 where
    gets : ℕ → Bytes → Call
    peeks : ℕ → Bytes → Call
    removes : Bytes → Call
    removes_oldest : Call
    adds_until : Bytes → V → ℕ → Call
    adds : ℕ → Bytes → V → ℕ → Call
    prunes : (ℕ → ℕ) → ℕ → ℕ → ℕ → Call

  unfoldable pub step : Call → Cache V S → Option (Cache V S)
  step (gets now k) c = some (get len on_evicted now k c).0
  step (peeks now k) c = some (peek len on_evicted now k c).0
  step (removes k) c = some (remove len on_evicted k c)
  step removes_oldest c = some (remove_oldest len on_evicted c)
  step (adds_until k a t) c = add_until len on_evicted k a t c
  step (adds now k a ttl) c = add len on_evicted now k a ttl c
  step (prunes clock now limit budget) c =
      some (prune_expired len on_evicted clock now limit budget c).0

  -- `none` means that an eviction loop did not end.
  unfoldable pub run : List Call → Cache V S → Option (Cache V S)
  run [] c = some c
  run (x ∷ calls) c = elim (step x c) [ none ↦ none | some c' ↦ run calls c' ]

  -- An added entry is smaller than 2 ^ 62 bytes.
  abbrev pub IsSmall : Call → Type 0
  IsSmall (adds_until k a _) = length k + len a < 2 ^ 62
  IsSmall (adds _ k a _) = length k + len a < 2 ^ 62
  IsSmall _ = Unit {0}

  abbrev pub AreSmall : List Call → Type 0
  AreSmall [] = Unit {0}
  AreSmall (x ∷ calls) = IsSmall x × AreSmall calls

  step-IsBounded :
      (limit : ℕ) (x : Call) (c : Cache V S)
      → 0 < limit
      → limit < 2 ^ 62
      → IsSmall x
      → IsBounded len limit c
      → (c' : Cache V S) × (step x c ≡ some c') × IsBounded len limit c'
  unfolding step add
  step-IsBounded limit (gets now k) c pos small fit b =
      (_, refl, get-IsBounded len on_evicted limit now k c b)
  step-IsBounded limit (peeks now k) c pos small fit b =
      (_, refl, peek-IsBounded len on_evicted limit now k c b)
  step-IsBounded limit (removes k) c pos small fit b =
      (_, refl, remove-IsBounded len on_evicted limit k c b)
  step-IsBounded limit removes_oldest c pos small fit b =
      (_, refl, remove_oldest-IsBounded len on_evicted limit c b)
  step-IsBounded limit (adds_until k a t) c pos small fit b =
      add_until-IsBounded len on_evicted limit k a t c pos small fit b
  step-IsBounded limit (adds now k a ttl) c pos small fit b =
      add_until-IsBounded len on_evicted limit k a (if ltb 0 ttl then now + ttl else 0) c pos small
        fit b
  step-IsBounded limit (prunes clock now l budget) c pos small fit b =
      let p = (prune_expired-Rounds len on_evicted now clock l budget c b.coherent).pruned in
      (
        _,
        refl,
        record {
          coherent = p.coherent;
          total_set = p.limit ∙ b.total_set;
          fits = omega (arith, p.smaller, b.fits);
        },
      )

  run-IsBounded :
      (limit : ℕ) (calls : List Call) (c : Cache V S)
      → 0 < limit
      → limit < 2 ^ 62
      → AreSmall calls
      → IsBounded len limit c
      → (c' : Cache V S) × (run calls c ≡ some c') × IsBounded len limit c'
  unfolding run
  run-IsBounded limit [] c pos small fit b = (c, refl, b)
  run-IsBounded limit (x ∷ calls) c pos small fit b =
      let (mid, one, w) = step-IsBounded limit x c pos small fit.0 b in
      let (c', rest, w') = run-IsBounded limit calls mid pos small fit.1 w in
      (c', rw (one, run) rest, w')

  -- Whatever the calls, on a cache that New made with a positive limit below 2 ^ 62 and with entries
  -- below 2 ^ 62 bytes: every call returns, and afterwards the list, the index, the byte count and the
  -- cursor agree and the logical bytes are within the limit.
  pub run-new_cache :
      (limit : ℕ) (s : S) (calls : List Call)
      → 0 < limit
      → limit < 2 ^ 62
      → AreSmall calls
      → (c' : Cache V S) × (run calls (new_cache limit s) ≡ some c') × IsBounded len limit c'
  unfolding new_cache
  run-new_cache limit s calls pos small fit =
      run-IsBounded limit calls (new_cache limit s) pos small fit (record {
        coherent = new_cache-IsCoherent len limit s;
        total_set = refl;
        fits = omega arith;
      })
