-- ===== src/Bloom/Membership.antt =====
-- bloomfilter.go: the filter never rejects a key that it was built from.
use Prim.Native.Nat.{bit_and, bit_or}
use native.Mathlib.Nat.{mod-lt}
use simple_cache.Prelude.{
  ℕ, zero, suc, ◌+◌, ◌-◌, ◌*◌, ◌/◌, ◌%◌, ◌^◌, ◌<◌, ◌≤◌, ◌≡◌, refl, ◌∙◌, ap, ◌≢◌, true, false, some,
  List, [], ◌∷◌, ◌++◌, Bytes, length, get_or, set, get_or-set_self, get_or-set_ne, length-set, ◌==◌,
  ◌||◌, arith, ℕ_discrete, subst, sym,
}
use simple_cache.Prelude.Bits.{bit_and-or_self, bit_and-or_keep}
use simple_cache.Bloom.{
  bits_for, hashes_for, BloomFilter, replicate, new_bloom_filter, probe, set_bit, add_from, add,
  contains_from, contains, add_all, new_bloom_for_keys,
}

-- The words cover every bit below the size.
record IsSized (bf : BloomFilter) : Type 0 where
  positive : 0 < bf.size
  words : length bf.bitset ≡ (bf.size - 1) / 64 + 1

abbrev IsOn : ℕ → BloomFilter → Type 0
IsOn idx bf = bit_and (get_or bf.bitset (idx / 64) 0) (2 ^ (idx % 64)) ≢ 0

length-replicate : (n : ℕ) → length (replicate n) ≡ n
length-replicate zero = refl
length-replicate (suc n) = ap suc (length-replicate n)

word_in_range : (x size words : ℕ) → 0 < size → words ≡ (size - 1) / 64 + 1 → x % size / 64 < words
word_in_range x size words h w = omega (arith, mod-lt x h)

-- Every probe of a filter of the right size addresses a word of its bitset.
probe-in_range :
    (bf : BloomFilter) (key : Bytes) (i : ℕ) → IsSized bf → probe bf key i / 64 < length bf.bitset
unfolding probe
probe-in_range bf key i s = word_in_range _ bf.size (length bf.bitset) s.positive s.words

words_covered :
    (bf : BloomFilter)
    → IsSized bf
    → (bf.size ≤ 64 * length bf.bitset) × (64 * length bf.bitset < bf.size + 64)
words_covered bf s = (omega (arith, s.positive, s.words), omega (arith, s.positive, s.words))

set_bit-IsSized : (idx : ℕ) (bf : BloomFilter) → IsSized bf → IsSized (set_bit idx bf)
unfolding set_bit
set_bit-IsSized idx bf s = record {
  positive = s.positive;
  words = omega (
    arith,
    length-set bf.bitset (idx / 64) (bit_or (get_or bf.bitset (idx / 64) 0) (2 ^ (idx % 64))),
    s.words,
  );
}

set_bit-IsOn_self :
    (idx : ℕ) (bf : BloomFilter) → idx / 64 < length bf.bitset → IsOn idx (set_bit idx bf)
unfolding set_bit
set_bit-IsOn_self idx bf h =
    subst (λ (w : ℕ). bit_and w (2 ^ (idx % 64)) ≢ 0)
      (sym (get_or-set_self bf.bitset (idx / 64) _ 0 h)) (bit_and-or_self (idx % 64) _)

set_bit-IsOn_keep :
    (idx j : ℕ) (bf : BloomFilter)
    → idx / 64 < length bf.bitset
    → IsOn j bf
    → IsOn j (set_bit idx bf)
unfolding set_bit
set_bit-IsOn_keep idx j bf h on = elim (ℕ_discrete (idx / 64) (j / 64)) [
  | yes p ↦
      subst
        (λ (q : ℕ).
          bit_and
            (get_or
              (set bf.bitset (idx / 64) (bit_or (get_or bf.bitset (idx / 64) 0) (2 ^ (idx % 64)))) q
              0)
            (2 ^ (j % 64))
          ≢ 0)
        p
        (subst (λ (w : ℕ). bit_and w (2 ^ (j % 64)) ≢ 0)
          (sym (get_or-set_self bf.bitset (idx / 64) _ 0 h))
          (bit_and-or_keep (j % 64) (get_or bf.bitset (idx / 64) 0) (2 ^ (idx % 64))
            (subst (λ (q : ℕ). bit_and (get_or bf.bitset q 0) (2 ^ (j % 64)) ≢ 0) (sym p) on)))
  | no p ↦
      subst (λ (w : ℕ). bit_and w (2 ^ (j % 64)) ≢ 0)
        (sym (get_or-set_ne bf.bitset (idx / 64) (j / 64) _ 0 p)) on
]

-- Adding a key keeps every bit that is on, the size, and the number of probes.
record Grows (bf bf' : BloomFilter) : Type 0 where
  sized : IsSized bf'
  size : bf'.size ≡ bf.size
  hashes : bf'.hashes ≡ bf.hashes
  keeps : (j : ℕ) → IsOn j bf → IsOn j bf'

Grows-refl : (bf : BloomFilter) → IsSized bf → Grows bf bf
Grows-refl bf s = record { sized = s; size = refl; hashes = refl; keeps = λ j on. on }

Grows-trans : (a b c : BloomFilter) → Grows a b → Grows b c → Grows a c
Grows-trans a b c p q = record {
  sized = q.sized;
  size = q.size ∙ p.size;
  hashes = q.hashes ∙ p.hashes;
  keeps = λ j on. q.keeps j (p.keeps j on);
}

set_bit-Grows :
    (bf : BloomFilter) (key : Bytes) (i : ℕ) → IsSized bf → Grows bf (set_bit (probe bf key i) bf)
set_bit-Grows bf key i s = record {
  sized = set_bit-IsSized (probe bf key i) bf s;
  size = unfold set_bit in refl;
  hashes = unfold set_bit in refl;
  keeps = λ j on. set_bit-IsOn_keep (probe bf key i) j bf (probe-in_range bf key i s) on;
}

-- The probes of a key depend on the size alone.
probe-Grows :
    (a b : BloomFilter) (key : Bytes) (i : ℕ) → a.size ≡ b.size → probe a key i ≡ probe b key i
unfolding probe
probe-Grows a b key i h = rw h refl

add_from-Grows :
    (rounds i : ℕ) (key : Bytes) (bf : BloomFilter)
    → IsSized bf
    → Grows bf (add_from rounds i key bf)
unfolding add_from
add_from-Grows zero i key bf s = Grows-refl bf s
add_from-Grows (suc rounds) i key bf s =
    let g = set_bit-Grows bf key i s in
    Grows-trans bf (set_bit (probe bf key i) bf) _ g (add_from-Grows rounds (suc i) key _ g.sized)

-- After its rounds every probe of the key is on, from round `i` up.
add_from-IsOn :
    (rounds i : ℕ) (key : Bytes) (bf : BloomFilter)
    → IsSized bf
    → (j : ℕ) → i ≤ j
    → j < i + rounds
    → IsOn (probe bf key j) (add_from rounds i key bf)
unfolding add_from
add_from-IsOn zero i key bf s j lo hi = absurd (omega arith)
add_from-IsOn (suc rounds) i key bf s j lo hi =
    let first = set_bit (probe bf key i) bf in
    let g = set_bit-Grows bf key i s in
    elim (ℕ_discrete i j) [
      | yes p ↦ (add_from-Grows rounds (suc i) key first g.sized).keeps (probe bf key j) (
          subst (λ (q : ℕ). IsOn (probe bf key q) first) p
            (set_bit-IsOn_self (probe bf key i) bf (probe-in_range bf key i s)))
      | no p ↦
          subst (λ (q : ℕ). IsOn q (add_from rounds (suc i) key first))
            (probe-Grows first bf key j g.size)
            (add_from-IsOn rounds (suc i) key first g.sized j (omega arith) (omega arith))
    ]

contains_of_IsOn :
    (rounds i : ℕ) (key : Bytes) (bf : BloomFilter)
    → ((j : ℕ) → i ≤ j → j < i + rounds → IsOn (probe bf key j) bf)
    → contains_from rounds i key bf ≡ true
unfolding contains_from
contains_of_IsOn zero i key bf on = refl
contains_of_IsOn (suc rounds) i key bf on = ground (
  arith,
  on i (omega arith) (omega arith),
  contains_of_IsOn rounds (suc i) key bf (λ j lo hi. on j (omega arith) (omega arith)),
)

-- Every probe of the key is on.
abbrev IsHeld : Bytes → BloomFilter → Type 0
IsHeld key bf = (j : ℕ) → j < bf.hashes → IsOn (probe bf key j) bf

IsHeld-Grows : (a b : BloomFilter) (key : Bytes) → Grows a b → IsHeld key a → IsHeld key b
IsHeld-Grows a b key g h = λ j lt.
    subst (λ (q : ℕ). IsOn q b) (probe-Grows a b key j (sym g.size))
      (g.keeps (probe a key j) (h j (omega (arith, g.hashes))))

add-Grows : (key : Bytes) (bf : BloomFilter) → IsSized bf → Grows bf (add key bf)
unfolding add
add-Grows key bf s = add_from-Grows bf.hashes 0 key bf s

add-IsHeld : (key : Bytes) (bf : BloomFilter) → IsSized bf → IsHeld key (add key bf)
unfolding add
add-IsHeld key bf s = λ j lt.
    let g = add-Grows key bf s in
    subst (λ (q : ℕ). IsOn q (add key bf)) (probe-Grows bf (add key bf) key j (sym g.size))
      (add_from-IsOn bf.hashes 0 key bf s j (omega arith) (omega (arith, g.hashes)))

add_all-Grows : (keys : List Bytes) (bf : BloomFilter) → IsSized bf → Grows bf (add_all keys bf)
unfolding add_all
add_all-Grows [] bf s = Grows-refl bf s
add_all-Grows (k ∷ keys) bf s =
    let g = add-Grows k bf s in
    Grows-trans bf (add k bf) _ g (add_all-Grows keys (add k bf) g.sized)

add_all-IsHeld :
    (before after : List Bytes) (key : Bytes) (bf : BloomFilter)
    → IsSized bf
    → IsHeld key (add_all (before ++ key ∷ after) bf)
unfolding add_all
add_all-IsHeld [] after key bf s =
    let g = add-Grows key bf s in
    IsHeld-Grows (add key bf) _ key (add_all-Grows after (add key bf) g.sized) (add-IsHeld key bf s)
add_all-IsHeld (k ∷ before) after key bf s =
    add_all-IsHeld before after key (add k bf) (add-Grows k bf s).sized

size_test : (a b : ℕ) → 0 < a → 0 < b → (a == 0 || b == 0) ≡ false
size_test a b h k = ground arith

new_bloom_filter-IsSized :
    (size hashes : ℕ)
    → 0 < size
    → 0 < hashes
    → (bf : BloomFilter) × (new_bloom_filter size hashes ≡ some bf) × IsSized bf
unfolding new_bloom_filter
new_bloom_filter-IsSized size hashes p q = (
  record { bitset = replicate ((size - 1) / 64 + 1); size = size; hashes = hashes },
  rw (size_test size hashes p q) refl,
  record { positive = p; words = length-replicate ((size - 1) / 64 + 1) },
)

module _ (ideal_bits : ℕ → ℕ) (ideal_hashes : ℕ → ℕ → ℕ) where
  sizes_positive :
      (n : ℕ)
      → (0 < bits_for ideal_bits ideal_hashes n) × (0 < hashes_for ideal_bits ideal_hashes n)
  unfolding bits_for hashes_for
  sizes_positive n = (ground arith, ground arith)

  keys_added :
      (keys : List Bytes) (bf : BloomFilter)
      → new_bloom_filter
          (bits_for ideal_bits ideal_hashes (length keys))
          (hashes_for ideal_bits ideal_hashes (length keys))
        ≡ some bf
      → new_bloom_for_keys ideal_bits ideal_hashes keys ≡ some (add_all keys bf)
  unfolding new_bloom_for_keys
  keys_added keys bf made = rw (made, new_bloom_for_keys) refl

  -- No false negative: a filter is built from any keys, whatever sizes the formulas give, and it
  -- contains each of them.
  pub new_bloom_for_keys-contains :
      (before after : List Bytes) (key : Bytes)
      → (bf : BloomFilter) × (new_bloom_for_keys ideal_bits ideal_hashes (before ++ key ∷ after)
          ≡ some bf)
        × (contains bf key ≡ true)
  unfolding contains
  new_bloom_for_keys-contains before after key =
      let keys = before ++ key ∷ after in
      let p = sizes_positive (length keys) in
      let (bf, made, s) = new_bloom_filter-IsSized _ _ p.0 p.1 in
      let h = add_all-IsHeld before after key bf s in
      let full = add_all keys bf in
      (
        full,
        keys_added keys bf made,
        contains_of_IsOn full.hashes 0 key full (λ j lo hi. h j (omega arith)),
      )

  -- No access out of range: a filter is built from any keys, whatever sizes the formulas give; it has
  -- exactly the words of 64 bits that its size needs, and every probe of every key addresses one of them.
  pub new_bloom_for_keys-probe :
      (keys : List Bytes)
      → (bf : BloomFilter) × (new_bloom_for_keys ideal_bits ideal_hashes keys ≡ some bf)
        × ((bf.size ≤ 64 * length bf.bitset) × (64 * length bf.bitset < bf.size + 64))
        × ((key : Bytes) (i : ℕ) → probe bf key i / 64 < length bf.bitset)
  new_bloom_for_keys-probe keys =
      let p = sizes_positive (length keys) in
      let (bf, made, s) = new_bloom_filter-IsSized _ _ p.0 p.1 in
      (
        add_all keys bf,
        keys_added keys bf made,
        words_covered (add_all keys bf) (add_all-Grows keys bf s).sized,
        λ key i. probe-in_range (add_all keys bf) key i (add_all-Grows keys bf s).sized,
      )
