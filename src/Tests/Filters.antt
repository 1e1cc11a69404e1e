-- ===== src/Tests/Filters.antt =====
-- internal/cache/bloomfilter.go at fixed inputs.
use simple_cache.Prelude.{ℕ, ◌+◌, ◌≤◌, ◌<◌, ◌/◌, ◌*◌, ◌≡◌, true, [], ◌∷◌, some, length, Bytes}
use simple_cache.Bloom.{BloomFilter, new_bloom_for_keys, probe, contains}
use simple_cache.Bloom.Membership.{new_bloom_for_keys-contains, new_bloom_for_keys-probe}

-- As many bits as ten for each key, and seven hashes.
abbrev ten_each : ℕ → ℕ
ten_each n = 10 * n

abbrev seven : ℕ → ℕ → ℕ
seven _ _ = 7

new_bloom_for_keys-contains_example :
    (bf : BloomFilter) × (new_bloom_for_keys ten_each seven ((97 ∷ []) ∷ (98 ∷ []) ∷ []) ≡ some bf)
    × (contains bf (98 ∷ []) ≡ true)
new_bloom_for_keys-contains_example =
    new_bloom_for_keys-contains ten_each seven ((97 ∷ []) ∷ []) [] (98 ∷ [])

new_bloom_for_keys-probe_example :
    (bf : BloomFilter) × (new_bloom_for_keys ten_each seven ((97 ∷ []) ∷ (98 ∷ []) ∷ []) ≡ some bf)
    × ((bf.size ≤ 64 * length bf.bitset) × (64 * length bf.bitset < bf.size + 64))
    × ((key : Bytes) (i : ℕ) → probe bf key i / 64 < length bf.bitset)
new_bloom_for_keys-probe_example =
    new_bloom_for_keys-probe ten_each seven ((97 ∷ []) ∷ (98 ∷ []) ∷ [])
