-- ===== src/Read/History.antt =====
-- versions.go, load.go, read.go: a Group through any sequence of its critical sections, as concurrent
-- readers, flights, invalidations and the maintenance worker interleave them under their locks.
pub mod Effects
pub mod Flights
use simple_cache.Prelude.{ℕ, Bool, Option, none, some, List, [], ◌∷◌, Bytes}
use simple_cache.Prelude.Int.{ℤ}
use simple_cache.Errors.{Error}
use simple_cache.Area
use simple_cache.Area.{ByteView}
use simple_cache.Group.{Group, ReadFence, read_barrier, invalidate_version}
use simple_cache.Load.{Clock, Outcome, publish}
use simple_cache.Read.{lookup}

-- One critical section, with its readings of the clock. A publication may have any fence and value.
pub data Event : Type 0 where
  looked : Option Error → ℕ → Bytes → Event
  fenced : ℕ → Bytes → Event
  published : Clock → Bytes → ReadFence → ByteView → Event
  invalidated : ℕ → ℕ → Bytes → ℤ → Event
  cleaned : Bool → (ℕ → ℕ) → ℕ → Event

-- What `g.mainCache.cleanExpired` leaves of the group.
abbrev clean : Bool → (ℕ → ℕ) → ℕ → Group → Group
clean busy clock now g = record g {
  main_cache = (Area.clean_expired busy clock now g.opts.cleanup_batch g.main_cache).0;
}

-- `none`: an eviction loop did not end.
unfoldable pub step : Event → Group → Option Group
step (looked ended now key) g = some (lookup ended now key g).0
step (fenced now key) g = some (read_barrier now key g).0
step (published t key fence view) g = elim (publish t key fence view g) [
  | none ↦ none
  | some o ↦ some o.group
]
step (invalidated now later key version) g = some (invalidate_version now later key version g).0
step (cleaned busy clock now) g = some (clean busy clock now g)

unfoldable pub run : List Event → Group → Option Group
run [] g = some g
run (e ∷ l) g = elim (step e g) [ none ↦ none | some g' ↦ run l g' ]
