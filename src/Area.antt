-- ===== src/Area.antt =====
-- internal/cache/cache.go: ByteView, and `cache`, the LRU behind a byte limit that is built on the
-- first insertion. Each method runs under the mutex, so it is one step. `evictions` is the state of the
-- callback that the LRU is given, a uint64. Readings of the clock are arguments; lengths of slices do
-- not wrap.
pub mod Laws
pub mod Reads
pub mod Insertion
pub mod Placement
pub mod Cleaning
pub mod Roundtrip
use simple_cache.Prelude.{
  ℕ, zero, suc, ◌+◌, ◌-◌, Bool, true, false, not, ◌&&◌, ◌||◌, Option, none, some, Bytes, length,
  add64, ltb, leb, ◌==◌, if◌then◌else◌,
}
use simple_cache.Lru
use simple_cache.Lru.{bytes, len_cache}

pub record ByteView : Type 0 where
  pub b : Bytes
  pub expires_at : ℕ
  pub version : ℕ

abbrev pub len_view : ByteView → ℕ
len_view v = length v.b

-- `func(string, lru.Value) { c.evictions++ }`
abbrev pub count_eviction : Bytes → ByteView → ℕ → ℕ
count_eviction _ _ n = add64 n 1

abbrev pub ViewCache : Type 0
ViewCache = Lru.Cache ByteView ℕ

pub record Area : Type 0 where
  pub lru : Option ViewCache
  pub cache_bytes : ℕ

abbrev pub evictions : Area → ℕ
evictions a = elim a.lru [ none ↦ 0 | some c ↦ c.outer ]

-- time.Until(bv.expiresAt), no less than zero
unfoldable pub remaining_ttl : ℕ → ByteView → ℕ
remaining_ttl now v = if v.expires_at == 0 then 0 else v.expires_at - now

unfoldable pub remove : Bytes → Area → Area
remove key a = elim a.lru [
  | none ↦ a
  | some c ↦ record a { lru = some (Lru.remove len_view count_eviction key c) }
]

-- The deadline of an insertion: a view that has one of its own keeps the earlier of the two.
unfoldable pub deadline_of : ℕ → ℕ → ByteView → ℕ
deadline_of now ttl v =
    if not (v.expires_at == 0) && ltb v.expires_at (now + ttl) then v.expires_at else now + ttl

-- The LRU, built if it is not there yet.
unfoldable pub lru_of : Area → ViewCache
lru_of a = elim a.lru [ none ↦ Lru.new_cache a.cache_bytes 0 | some c ↦ c ]

-- `now` and `later` are the two readings of the clock. `none`: the eviction loop did not end.
unfoldable pub add : ℕ → ℕ → Bytes → ByteView → ℕ → Area → Option (Area × ByteView)
unfolding remove deadline_of lru_of
add now later key v ttl a =
    if ltb a.cache_bytes (length key + len_view v)
    then some (remove key a, record v { expires_at = 0 })
    else let deadline = deadline_of now ttl v in
      if leb deadline later
      then some (remove key a, v)
      else let view = record v { expires_at = deadline } in
        elim (Lru.add_until len_view count_eviction key view deadline (lru_of a)) [
          | none ↦ none
          | some c ↦ some (record a { lru = some c }, view)
        ]

pub record Stats : Type 0 where
  pub version_records : ℕ
  pub version_capacity : ℕ
  pub version_evictions : ℕ
  pub bytes : ℕ
  pub capacity : ℕ
  pub entries : ℕ
  pub removals : ℕ

unfoldable pub stats : Area → Stats
unfolding bytes len_cache
stats a = record {
  version_records = 0;
  version_capacity = 0;
  version_evictions = 0;
  bytes = elim a.lru [ none ↦ 0 | some c ↦ bytes c ];
  capacity = a.cache_bytes;
  entries = elim a.lru [ none ↦ 0 | some c ↦ len_cache c ];
  removals = evictions a;
}

unfoldable pub get : ℕ → Bytes → Area → Area × Option ByteView
get now key a = elim a.lru [
  | none ↦ (a, none)
  | some c ↦
      let (c', v) = Lru.get len_view count_eviction now key c in (record a { lru = some c' }, v)
]

-- The version of a resident value; zero where there is none.
unfoldable pub version : ℕ → Bytes → Area → Area × ℕ
version now key a = elim a.lru [
  | none ↦ (a, 0)
  | some c ↦
      let (c', v) = Lru.peek len_view count_eviction now key c in
      (record a { lru = some c' }, elim v [ none ↦ 0 | some w ↦ w.version ])
]

abbrev cleanup_budget : ℕ
cleanup_budget = 2000000

-- cleanExpired: `busy` says that the lock was taken. The results are checked, removed and busy.
unfoldable pub clean_expired : Bool → (ℕ → ℕ) → ℕ → ℕ → Area → Area × ℕ × ℕ × Bool
clean_expired true clock now limit a = (a, 0, 0, true)
clean_expired false clock now limit a = elim a.lru [
  | none ↦ (a, 0, 0, false)
  | some c ↦
      let (c', checked, removed) =
        Lru.prune_expired len_view count_eviction clock now limit cleanup_budget c in
      (record a { lru = some c' }, checked, removed, false)
]
