-- ===== src/Group.antt =====
-- internal/cache/group.go and versions.go: the state of a Group, its options, and the bounded table of
-- version floors with the striped epochs. `entries`, the index of the floor table, leads a key to its
-- record of `advanced`, so it is the search by key here. The name, the lifecycle context, the limiter
-- and the observer are not state that these operations change, and are left out of the record.
pub mod Floors
pub mod Stripes
pub mod Fences
pub mod Invariant
pub mod Invalidation
pub mod Forced
pub mod Start
use Prim.Native.Nat.{bit_and}
use simple_cache.Prelude.{
  ℕ, zero, suc, ◌+◌, ◌-◌, ite, max, Bool, true, false, not, ◌&&◌, ◌||◌, Option, none, some, List,
  [], ◌∷◌, Bytes, Bytes-discrete, length, get_or, set, add64, ltb, leb, ◌==◌, if◌then◌else◌,
}
use simple_cache.Prelude.Int.{ℤ, pos, negsuc}
use simple_cache.Errors.{Error, invalid_version, validate_key}
use simple_cache.Bloom.{BloomFilter, fnv1a, fnv_offset}
use simple_cache.Area
use simple_cache.Area.{Area, Stats}

pub record ReadFence : Type 0 where
  pub epoch : ℕ
  pub minimum : ℕ

unfoldable pub with_minimum : ℕ → ReadFence → ReadFence
with_minimum m f = record f { minimum = max f.minimum m }

abbrev pub default_version_records : ℕ
default_version_records = 1024

pub record VersionRecord : Type 0 where
  pub key : Bytes
  pub version : ℕ

-- `advanced` has the most recently inserted or advanced record in front.
pub record VersionFloors : Type 0 where
  pub capacity : ℕ
  pub advanced : List VersionRecord
  pub evictions : ℕ

-- Durations in nanoseconds, those below zero left out by the type.
pub record Options : Type 0 where
  pub ttl : ℕ
  pub source_timeout : ℕ
  pub epoch_buckets : ℕ
  pub max_miss_waiters : ℕ
  pub cleanup_interval : ℕ
  pub cleanup_batch : ℕ

unfoldable pub or_default : ℕ → ℕ → ℕ
or_default value default = if value == 0 then default else value

-- `n&(n-1) == 0`
abbrev is_power_of_two : ℕ → Bool
is_power_of_two n = bit_and n (n - 1) == 0

-- normalizeOptions; `none` is its panic. The panics on negative values are left out with those values.
unfoldable pub normalize_options : Options → Option Options
unfolding or_default
normalize_options o =
    let o' : Options = record {
      ttl = or_default o.ttl 60000000000;
      source_timeout = or_default o.source_timeout 800000000;
      epoch_buckets = or_default o.epoch_buckets 256;
      max_miss_waiters = or_default o.max_miss_waiters 128;
      cleanup_interval = or_default o.cleanup_interval 1000000000;
      cleanup_batch = or_default o.cleanup_batch 128;
    } in
    if ltb 256 o'.epoch_buckets || not (is_power_of_two o'.epoch_buckets) then none else some o'

pub record Group : Type 0 where
  pub main_cache : Area
  pub bloom : Option BloomFilter
  pub floors : VersionFloors
  pub epochs : List ℕ
  pub opts : Options
  pub api_waiters : ℕ

abbrev pub zeros : ℕ → List ℕ
zeros zero = []
zeros (suc n) = 0 ∷ zeros n

abbrev pub empty_group : ℕ → Options → Option BloomFilter → Group
empty_group capacity o bloom = record {
  main_cache = record { lru = none; cache_bytes = capacity };
  bloom = bloom;
  floors = record { capacity = default_version_records; advanced = []; evictions = 0 };
  epochs = zeros 256;
  opts = o;
  api_waiters = 0;
}

-- NewGroup, given the filter of `opts.KnownKeys` if there are any; `none` is a panic.
unfoldable pub new_group : Bytes → ℕ → Options → Option BloomFilter → Option Group
unfolding normalize_options
new_group name capacity opts bloom =
    if length name == 0 || capacity == 0 then none else elim (normalize_options opts) [
      | none ↦ none
      | some o ↦ some (empty_group capacity o bloom)
    ]

-- The hash loop is FNV-1a, as in the filter.
unfoldable pub epoch_bucket : Options → Bytes → ℕ
epoch_bucket o key = bit_and (fnv1a fnv_offset key) (o.epoch_buckets - 1)

unfoldable pub current_epoch : Bytes → Group → ℕ
current_epoch key g = get_or g.epochs (epoch_bucket g.opts key) 0

-- g.epochs[g.epochBucket(key)]++
unfoldable pub bump_epoch : Bytes → Group → Group
bump_epoch key g = record g {
  epochs =
      set g.epochs (epoch_bucket g.opts key)
        (add64 (get_or g.epochs (epoch_bucket g.opts key) 0) 1);
}

unfoldable pub find_floor : Bytes → List VersionRecord → Option ℕ
find_floor k [] = none
find_floor k (r ∷ l) = ite (Bytes-discrete r.key k) (some r.version) (find_floor k l)

unfoldable pub remove_floor : Bytes → List VersionRecord → List VersionRecord
remove_floor k [] = []
remove_floor k (r ∷ l) = ite (Bytes-discrete r.key k) l (r ∷ remove_floor k l)

-- advanced.Back()
unfoldable pub last_floor : List VersionRecord → Option VersionRecord
last_floor [] = none
last_floor (r ∷ []) = some r
last_floor (r ∷ s ∷ l) = last_floor (s ∷ l)

unfoldable pub drop_last : List VersionRecord → List VersionRecord
drop_last [] = []
drop_last (r ∷ []) = []
drop_last (r ∷ s ∷ l) = r ∷ drop_last (s ∷ l)

-- The part of rememberVersionLocked that retires the oldest record, if the table is full.
unfoldable pub make_room : Group → Group
make_room g =
    if length g.floors.advanced == g.floors.capacity
    then elim (last_floor g.floors.advanced) [
      | none ↦ g
      | some old ↦ bump_epoch old.key (record g {
        floors = record g.floors {
          advanced = drop_last g.floors.advanced;
          evictions = add64 g.floors.evictions 1;
        };
      })
    ]
    else g

unfoldable pub push_floor : Bytes → ℕ → Group → Group
push_floor key version g = record g {
  floors = record g.floors {
    advanced = record { key = key; version = version } ∷ g.floors.advanced;
  };
}

unfoldable pub advance_floor : Bytes → ℕ → Group → Group
advance_floor key version g = record g {
  floors = record g.floors {
    advanced = record { key = key; version = version } ∷ remove_floor key g.floors.advanced;
  };
}

-- rememberVersionLocked
unfoldable pub remember_version : Bytes → ℕ → Group → Group
remember_version key version g =
    if version == 0 then g else elim (find_floor key g.floors.advanced) [
      | some old ↦ if ltb old version then advance_floor key version g else g
      | none ↦ push_floor key version (make_room g)
    ]

abbrev pub or_zero : Option ℕ → ℕ
or_zero none = 0
or_zero (some v) = v

-- knownVersionLocked: the lookup of the resident value may drop an expired entry.
unfoldable pub known_version : ℕ → Bytes → Group → Group × ℕ
known_version now key g =
    let (a, cached) = Area.version now key g.main_cache in
    (record g { main_cache = a }, max (or_zero (find_floor key g.floors.advanced)) cached)

-- The removal that ends InvalidateVersion; the resident version is not looked up for version zero.
unfoldable pub drop_older : ℕ → Bytes → ℕ → ℕ → Group → Group
drop_older now key version minimum g =
    if version == 0
    then record g { main_cache = Area.remove key g.main_cache }
    else let (a, cached) = Area.version now key g.main_cache in
      if ltb cached minimum
      then record g { main_cache = Area.remove key a }
      else record g { main_cache = a }

-- The critical section of InvalidateVersion, for a key and a version that were accepted.
unfoldable pub apply_version : ℕ → ℕ → Bytes → ℕ → Group → Group
apply_version now later key version g =
    let (g', known) = known_version now key g in
    let remembered = remember_version key (max known version) g' in
    let bumped =
      if version == 0 || ltb known version then bump_epoch key remembered else remembered in
    drop_older later key version (max known version) bumped

-- InvalidateVersion; `now` and `later` are the readings of the clock under its two lookups.
unfoldable pub invalidate_version : ℕ → ℕ → Bytes → ℤ → Group → Group × Option Error
invalidate_version now later key (negsuc n) g = elim (validate_key key) [
  | some e ↦ (g, some e)
  | none ↦ (g, some invalid_version)
]
invalidate_version now later key (pos version) g = elim (validate_key key) [
  | some e ↦ (g, some e)
  | none ↦ (apply_version now later key version g, none)
]

unfoldable pub read_barrier : ℕ → Bytes → Group → Group × ReadFence
read_barrier now key g =
    let (g', known) = known_version now key g in
    (g', record { epoch = current_epoch key g; minimum = known })

-- Group.Stats
unfoldable pub group_stats : Group → Stats
group_stats g = record (Area.stats g.main_cache) {
  version_records = length g.floors.advanced;
  version_capacity = g.floors.capacity;
  version_evictions = g.floors.evictions;
}
