-- ===== src/Group/Stripes.antt =====
-- versions.go: epochs and floors of a group, and how far one state of them is from another.
use simple_cache.Prelude.{
  ℕ, ◌+◌, ◌-◌, ◌%◌, ◌^◌, ◌≤◌, ◌<◌, ◌≡◌, ◌∙◌, ◌⊎◌, inr, Bytes, length, arith, ap,
}
use simple_cache.Prelude.Bits.{bit_and-le}
use simple_cache.Bloom.{fnv1a, fnv_offset}
use simple_cache.Group.{Group, epoch_bucket, current_epoch, find_floor, or_zero}

-- The version floor of a key; zero where there is no record.
abbrev pub floor_of : Bytes → Group → ℕ
floor_of k g = or_zero (find_floor k g.floors.advanced)

-- The stripes that the options name are there.
pub record HasStripes (g : Group) : Type 0 where
  pub words : length g.epochs ≡ 256
  pub few : g.opts.epoch_buckets ≤ 256

-- From `g` to `g'` with at most `n` bumps of the stripe of `k`.
pub record Moves (k : Bytes) (n : ℕ) (g g' : Group) : Type 0 where
  pub stripes : HasStripes g'
  pub opts : g'.opts ≡ g.opts
  pub bumps : ℕ
  pub few : bumps ≤ n
  pub epoch : current_epoch k g' % 2 ^ 64 ≡ (current_epoch k g + bumps) % 2 ^ 64
  pub floor : (1 ≤ bumps) ⊎ (floor_of k g ≤ floor_of k g')

pub epoch_bucket-lt :
    (k : Bytes) (g : Group) → HasStripes g → epoch_bucket g.opts k < length g.epochs
unfolding epoch_bucket
epoch_bucket-lt k g s =
    omega (arith, bit_and-le (fnv1a fnv_offset k) (g.opts.epoch_buckets - 1), s.words, s.few)

-- Where the epochs and the floors are left alone.
pub Moves-same :
    (k : Bytes) (g g' : Group)
    → HasStripes g
    → g'.opts ≡ g.opts
    → g'.epochs ≡ g.epochs
    → floor_of k g ≤ floor_of k g'
    → Moves k 0 g g'
unfolding current_epoch
Moves-same k g g' s o e f = record {
  stripes = record { words = ap length e ∙ s.words; few = ground (arith, s.few) };
  opts = o;
  bumps = 0;
  few = omega arith;
  epoch = ground arith;
  floor = inr f;
}

pub Moves-trans :
    (k : Bytes) (m n : ℕ) (a b c : Group) → Moves k m a b → Moves k n b c → Moves k (m + n) a c
Moves-trans k m n a b c p q = record {
  stripes = q.stripes;
  opts = q.opts ∙ p.opts;
  bumps = p.bumps + q.bumps;
  few = omega (arith, p.few, q.few);
  epoch = omega (arith, p.epoch, q.epoch);
  floor = omega (arith, p.floor, q.floor);
}

pub Moves-weaken : (k : Bytes) (m n : ℕ) (a b : Group) → m ≤ n → Moves k m a b → Moves k n a b
Moves-weaken k m n a b h p = record {
  stripes = p.stripes;
  opts = p.opts;
  bumps = p.bumps;
  few = omega (arith, p.few);
  epoch = p.epoch;
  floor = p.floor;
}

pub Moves-trans-zero :
    (k : Bytes) (n : ℕ) (a b c : Group) → Moves k 0 a b → Moves k n b c → Moves k n a c
Moves-trans-zero k n a b c p q =
    Moves-weaken k (0 + n) n a c (omega arith) (Moves-trans k 0 n a b c p q)
