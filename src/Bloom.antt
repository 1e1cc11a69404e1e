-- ===== src/Bloom.antt =====
-- internal/cache/bloomfilter.go: the filter of the known keys. Words and hashes are uint64. FNV is
-- written out as hash/fnv documents it. The floating-point sizing formulas of newBloomForKeys enter as
-- the parameters `ideal_bits` and `ideal_hashes`. A panic is `none`.
pub mod Membership
use Prim.Native.Nat.{bit_and, bit_or, bit_xor}
use simple_cache.Prelude.{
  ℕ, zero, suc, ◌+◌, ◌-◌, ◌*◌, ◌/◌, ◌%◌, ◌^◌, max, Bool, true, false, ◌||◌, Option, none, some,
  List, [], ◌∷◌, Bytes, length, get_or, set, ltb, ◌==◌, if◌then◌else◌,
}

pub record BloomFilter : Type 0 where
  pub bitset : List ℕ
  pub size : ℕ
  pub hashes : ℕ

abbrev replicate : ℕ → List ℕ
replicate zero = []
replicate (suc n) = 0 ∷ replicate n

unfoldable pub new_bloom_filter : ℕ → ℕ → Option BloomFilter
new_bloom_filter size hashes =
    if size == 0 || hashes == 0
    then none
    else some (record { bitset = replicate ((size - 1) / 64 + 1); size = size; hashes = hashes })

abbrev pub fnv_offset : ℕ
fnv_offset = 14695981039346656037

abbrev pub fnv_prime : ℕ
fnv_prime = 1099511628211

-- fnv.New64a: xor, then multiply.
unfoldable pub fnv1a : ℕ → Bytes → ℕ
fnv1a hash [] = hash
fnv1a hash (c ∷ key) = fnv1a (bit_xor hash c * fnv_prime % 2 ^ 64) key

-- fnv.New64: multiply, then xor.
unfoldable pub fnv1 : ℕ → Bytes → ℕ
fnv1 hash [] = hash
fnv1 hash (c ∷ key) = fnv1 (bit_xor (hash * fnv_prime % 2 ^ 64) c) key

unfoldable pub bloom_hashes : Bytes → ℕ × ℕ
unfolding fnv1a fnv1
bloom_hashes key = (fnv1a fnv_offset key, bit_or (fnv1 fnv_offset key) 1)

-- (h1 + uint64(i)*h2) % bf.size
unfoldable pub probe : BloomFilter → Bytes → ℕ → ℕ
unfolding bloom_hashes
probe bf key i = (let (h1, h2) = bloom_hashes key in (h1 + i * h2) % 2 ^ 64) % bf.size

-- bf.bitset[idx/64] |= 1 << (idx % 64)
unfoldable pub set_bit : ℕ → BloomFilter → BloomFilter
set_bit idx bf = record bf {
  bitset = set bf.bitset (idx / 64) (bit_or (get_or bf.bitset (idx / 64) 0) (2 ^ (idx % 64)));
}

-- bf.bitset[idx/64]&(1<<(idx%64)) == 0
abbrev pub bit_unset : ℕ → BloomFilter → Bool
bit_unset idx bf = bit_and (get_or bf.bitset (idx / 64) 0) (2 ^ (idx % 64)) == 0

-- The loop of Add, `rounds` to go from round `i`.
unfoldable pub add_from : ℕ → ℕ → Bytes → BloomFilter → BloomFilter
add_from zero i key bf = bf
add_from (suc rounds) i key bf = add_from rounds (suc i) key (set_bit (probe bf key i) bf)

unfoldable pub add : Bytes → BloomFilter → BloomFilter
add key bf = add_from bf.hashes 0 key bf

-- The loop of Contains.
unfoldable pub contains_from : ℕ → ℕ → Bytes → BloomFilter → Bool
contains_from zero i key bf = true
contains_from (suc rounds) i key bf =
    let rest = contains_from rounds (suc i) key bf in
    if bit_unset (probe bf key i) bf then false else rest

unfoldable pub contains : BloomFilter → Bytes → Bool
contains bf key = contains_from bf.hashes 0 key bf

unfoldable pub add_all : List Bytes → BloomFilter → BloomFilter
add_all [] bf = bf
add_all (key ∷ keys) bf = add_all keys (add key bf)

module _ (ideal_bits : ℕ → ℕ) (ideal_hashes : ℕ → ℕ → ℕ) where
  -- The sizes that newBloomForKeys settles on for so many keys.
  unfoldable pub bits_for : ℕ → ℕ
  bits_for n = if ltb (ideal_bits n) 64 then 64 else ideal_bits n

  unfoldable pub hashes_for : ℕ → ℕ
  hashes_for n = if ltb 0 n then max 1 (ideal_hashes (bits_for n) n) else 1

  unfoldable pub new_bloom_for_keys : List Bytes → Option BloomFilter
  new_bloom_for_keys keys =
      elim (new_bloom_filter (bits_for (length keys)) (hashes_for (length keys))) [
        | none ↦ none
        | some bf ↦ some (add_all keys bf)
      ]
