-- ===== src/Tests/Recency.antt =====
-- internal/cache/lru/lru.go at fixed inputs: a cache of numbers, each worth one byte.
use simple_cache.Prelude.{
  ℕ, ◌+◌, ◌≡◌, refl, sym, subst, ◌∙◌, inr, List, [], ◌∷◌, none, some, Bytes, Bytes-discrete, arith,
}
use simple_cache.Prelude.Maps
use simple_cache.Lru.{
  Cache, new_cache, add_until, evict, element_of, move_to_front, get, peek, prune_expired,
}
use simple_cache.Lru.Elements.{find_id, remove_id}
use simple_cache.Lru.Invariant.{IsCoherent}
use simple_cache.Lru.Adding.{Added, add_until-Added, remove_key, peek-add_until}
use simple_cache.Lru.Bounds.{IsBounded}
use simple_cache.Lru.Lookup.{Looked, peek-Looked, get-Looked}
use simple_cache.Lru.Pruning.{Rounds, prune_expired-Rounds}
use simple_cache.Lru.Calls.{Call, run, step, run-new_cache, adds_until, gets}

abbrev one_byte : ℕ → ℕ
one_byte _ = 1

abbrev count : Bytes → ℕ → ℕ → ℕ
count _ _ n = n + 1

-- Two entries, the second with a deadline, and a lookup of the first.
abbrev calls : List (Call one_byte count)
calls = adds_until (1 ∷ []) 7 0 ∷ adds_until (2 ∷ []) 8 5 ∷ gets 3 (1 ∷ []) ∷ []

run-new_cache_example :
    (c' : Cache ℕ ℕ) × (run one_byte count calls (new_cache 5 0) ≡ some c')
    × IsBounded one_byte 5 c'
run-new_cache_example =
    run-new_cache one_byte count 5 0 calls (omega arith) (omega arith)
      (omega arith, (omega arith, (tt, tt)))

abbrev filled : Cache ℕ ℕ
filled = record {
  bytes_total = 5;
  byte_now = 4;
  ll =
      record { id = 0; key = 1 ∷ []; value = 7; expire_at = 0 }
      ∷ record { id = 1; key = 2 ∷ []; value = 8; expire_at = 5 }
      ∷ [];
  cache = (2 ∷ [], 1) ∷ (1 ∷ [], 0) ∷ [];
  expire_cursor = none;
  next_id = 2;
  outer = 0;
}

filled-run : run one_byte count calls (new_cache 5 0) ≡ some filled
unfolding run step add_until evict element_of new_cache get peek find_id move_to_front remove_id
    Maps.get Maps.put Bytes-discrete
filled-run = refl

filled-IsCoherent : IsCoherent one_byte filled
filled-IsCoherent =
    let (c, r, b) = run-new_cache_example in
    subst (IsCoherent one_byte) (ground (arith, sym r ∙ filled-run)) b.coherent

-- The third entry does not fit with both: the one used least recently goes.
add_until-Added_example :
    (c' : Cache ℕ ℕ) × (add_until one_byte count (3 ∷ []) 9 0 filled ≡ some c')
    × Added one_byte count (3 ∷ []) 9 0 filled c'
add_until-Added_example =
    add_until-Added one_byte count (3 ∷ []) 9 0 filled filled-IsCoherent (omega arith) (omega arith)

peek-add_until_example :
    (c' : Cache ℕ ℕ) × (add_until one_byte count (2 ∷ []) 9 4 filled ≡ some c')
    × (peek one_byte count 3 (2 ∷ []) c' ≡ (c', some 9))
peek-add_until_example =
    peek-add_until one_byte count (2 ∷ []) 9 4 3 filled filled-IsCoherent (omega arith)
      (omega arith) (inr (omega arith)) refl

-- At 5 the second entry has expired.
peek-Looked_example :
    Looked one_byte count 5 (2 ∷ []) filled (λ e. filled.ll) (peek one_byte count 5 (2 ∷ []) filled)
peek-Looked_example = peek-Looked one_byte count 5 (2 ∷ []) filled filled-IsCoherent

get-Looked_example :
    Looked one_byte count 4
      (2 ∷ [])
      filled
      (λ e. e ∷ remove_key (2 ∷ []) filled.ll)
      (get one_byte count 4 (2 ∷ []) filled)
get-Looked_example = get-Looked one_byte count 4 (2 ∷ []) filled filled-IsCoherent

prune_expired-Rounds_example :
    Rounds one_byte count 9 filled 2 0 0 (prune_expired one_byte count (λ i. 0) 9 2 1000 filled)
prune_expired-Rounds_example =
    prune_expired-Rounds one_byte count 9 (λ i. 0) 2 1000 filled filled-IsCoherent
