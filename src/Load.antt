-- ===== src/Load.antt =====
-- internal/cache/load.go: one load from the source. What the limiter, the context and the source
-- answer is in `Run`; the group is that of the moment of publication, since nothing before it reads or
-- changes the group. Metrics and the release of the slot are left out.
pub mod Publication
use simple_cache.Prelude.{
  ℕ, zero, suc, Bool, true, false, not, ◌&&◌, max, Option, none, some, [], Bytes, length, ltb, ◌==◌,
  if◌then◌else◌,
}
use simple_cache.Prelude.Int.{ℤ, pos, negsuc}
use simple_cache.Errors.{Error, other, value_too_large, stale_version, max_value_bytes}
use simple_cache.Area
use simple_cache.Area.{Area, ByteView}
use simple_cache.Group.{Group, ReadFence, current_epoch, known_version}

pub record SourceResult : Type 0 where
  pub value : ByteView
  pub minimum : ℕ

abbrev pub no_view : ByteView
no_view = record { b = []; expires_at = 0; version = 0 }

-- What the getter returned: GetVersioned, or Get of a source without versions.
pub data Answer : Type 0 where
  failed : Error → Answer
  versioned : Bytes → ℤ → Answer
  unversioned : Bytes → Answer

pub data Checked : Type 0 where
  refused : Error → Checked
  accepted : Bytes → ℕ → Checked

unfoldable pub checked_size : Bytes → ℕ → Checked
checked_size b version =
    if ltb max_value_bytes (length b) then refused value_too_large else accepted b version

-- `err == nil` after the getter: the context first, then the size.
unfoldable pub checked_value : Option Error → Bytes → ℕ → Checked
unfolding checked_size
checked_value (some e) b version = refused e
checked_value none b version = checked_size b version

unfoldable pub check_answer : Option Error → Answer → Checked
unfolding checked_value
check_answer ended (failed e) = refused e
check_answer ended (unversioned b) = checked_value ended b 0
check_answer ended (versioned b (pos zero)) = refused other
check_answer ended (versioned b (pos (suc n))) = checked_value ended b (suc n)
check_answer ended (versioned b (negsuc n)) = refused other

-- Readings of the clock under the lookup and the insertion.
pub record Clock : Type 0 where
  pub first : ℕ
  pub second : ℕ
  pub third : ℕ

pub record Outcome : Type 0 where
  pub group : Group
  pub result : SourceResult
  pub error : Option Error

unfoldable pub stale_outcome : ReadFence → ℕ → Group → Outcome
stale_outcome fence known g = record {
  group = g;
  result = record { value = no_view; minimum = max fence.minimum known };
  error = some stale_version;
}

unfoldable pub stored_outcome : ReadFence → ℕ → ByteView → Group → Outcome
stored_outcome fence known view g = record {
  group = g;
  result = record { value = view; minimum = max fence.minimum known };
  error = none;
}

-- The critical section that ends loadSource, after knownVersionLocked. `none`: the eviction loop did
-- not end.
unfoldable pub publish_known : Clock → Bytes → ReadFence → ByteView → Group → ℕ → Option Outcome
unfolding stale_outcome stored_outcome
publish_known t key fence view g known =
    if ltb view.version (max fence.minimum known)
    then some (stale_outcome fence known g)
    else if fence.epoch == current_epoch key g
    then elim (Area.add t.second t.third key view g.opts.ttl g.main_cache) [
      | none ↦ none
      | some (a, stored) ↦ some (stored_outcome fence known stored (record g { main_cache = a }))
    ]
    else some (stored_outcome fence known view g)

unfoldable pub publish : Clock → Bytes → ReadFence → ByteView → Group → Option Outcome
publish t key fence view g =
    let (g', known) = known_version t.first key g in publish_known t key fence view g' known

-- `acquired`: the limiter's answer. `started`, `ended` and `late`: work.Err() at its three readings.
pub record Run : Type 0 where
  pub acquired : Option Error
  pub started : Option Error
  pub answer : Answer
  pub ended : Option Error
  pub late : Option Error
  pub clock : Clock

unfoldable pub first_error : Option Error → Option Error → Option Error
first_error (some e) _ = some e
first_error none e = e

unfoldable pub give_up : ReadFence → Error → Group → Outcome
give_up fence e g = record {
  group = g;
  result = record { value = no_view; minimum = fence.minimum };
  error = some e;
}

unfoldable pub load_source : Run → Bytes → ReadFence → Group → Option Outcome
unfolding first_error give_up check_answer
load_source run key fence g = elim (first_error run.acquired run.started) [
  | some e ↦ some (give_up fence e g)
  | none ↦ elim (check_answer run.ended run.answer) [
    | refused e ↦ some (give_up fence e g)
    | accepted b version ↦ elim run.late [
      | some e ↦ some (give_up fence e g)
      | none ↦ publish run.clock key fence (record { b = b; expires_at = 0; version = version }) g
    ]
  ]
]
