-- ===== src/Group/Start.antt =====
-- group.go `NewGroup`: what it accepts, and the group that it gives.
use simple_cache.Prelude.{
  ℕ, zero, suc, ◌≤◌, ◌<◌, ◌^◌, ◌≡◌, refl, sym, subst, ap, inl, inr, Option, none, some, Bytes,
  length, Option-cases, arith,
}
use simple_cache.Bloom.{BloomFilter}
use simple_cache.Area.Laws.{resident, resident_of_none}
use simple_cache.Group.{
  Group, Options, empty_group, zeros, new_group, normalize_options, find_floor,
}
use simple_cache.Group.Invariant.{IsSound}

zeros-length : (n : ℕ) → length (zeros n) ≡ n
zeros-length zero = refl
zeros-length (suc n) = ap suc (zeros-length n)

-- The options that are accepted name at most 256 stripes.
normalized_few : (o o' : Options) → normalize_options o ≡ some o' → o'.epoch_buckets ≤ 256
unfolding normalize_options
normalized_few o o' h = ground arith

started-IsSound :
    (capacity : ℕ) (o : Options) (bloom : Option BloomFilter)
    → 0 < capacity
    → capacity < 2 ^ 62
    → o.epoch_buckets ≤ 256
    → IsSound (empty_group capacity o bloom)
unfolding find_floor
started-IsSound capacity o bloom pos small few = record {
  area = record { positive = pos; small = small; bounded = tt };
  stripes = record { words = zeros-length 256; few = few };
  some_room = omega arith;
  bounded = omega arith;
  held = λ k w h. omega arith;
}

-- What is accepted, and what comes of it.
new_group-empty :
    (name : Bytes) (capacity : ℕ) (o : Options) (bloom : Option BloomFilter) (g : Group)
    → new_group name capacity o bloom ≡ some g
    → (0 < capacity)
      × (o' : Options) × (normalize_options o ≡ some o')
      × (g ≡ empty_group capacity o' bloom)
unfolding new_group
new_group-empty name capacity o bloom g h = elim (Option-cases (normalize_options o)) [
  | inl e ↦ absurd (ground arith)
  | inr (o', e) ↦ (ground arith, o', e, ground arith)
]

-- A group that NewGroup gives, with fewer than 2 ^ 62 bytes, is sound, and nothing is resident in it.
pub new_group-IsSound :
    (name : Bytes) (capacity : ℕ) (o : Options) (bloom : Option BloomFilter) (g : Group)
    → capacity < 2 ^ 62
    → new_group name capacity o bloom ≡ some g
    → IsSound g × ((k : Bytes) → resident k g.main_cache ≡ none)
new_group-IsSound name capacity o bloom g small h =
    let (pos, o', e, q) = new_group-empty name capacity o bloom g h in
    subst (λ (x : Group). IsSound x × ((k : Bytes) → resident k x.main_cache ≡ none)) (sym q)
      (
        started-IsSound capacity o' bloom pos small (normalized_few o o' e),
        λ k. resident_of_none k (record { lru = none; cache_bytes = capacity }) refl,
      )
