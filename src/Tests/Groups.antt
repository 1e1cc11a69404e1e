-- ===== src/Tests/Groups.antt =====
-- internal/cache/group.go, versions.go, load.go and read.go at fixed inputs.
use simple_cache.Prelude.{◌≡◌, refl, false, List, [], ◌∷◌, none, some, Bytes, arith}
use simple_cache.Prelude.Int.{pos}
use simple_cache.Errors.{validate_key}
use simple_cache.Area
use simple_cache.Read
use simple_cache.Area.{ByteView}
use simple_cache.Area.Laws.{resident}
use simple_cache.Group.{
  Group, ReadFence, Options, empty_group, new_group, normalize_options, known_version, read_barrier,
  invalidate_version, apply_version,
}
use simple_cache.Group.Stripes.{Moves}
use simple_cache.Group.Fences.{apply_version-Moves}
use simple_cache.Group.Invariant.{IsSound, Invalidated}
use simple_cache.Group.Invalidation.{apply_version-Invalidated}
use simple_cache.Group.Start.{new_group-IsSound}
use simple_cache.Read.Flight.{Plan, Reply, flight}
use simple_cache.Read.Flight.Sharing.{flight_key-injective, shared_flight-Answered}
use simple_cache.Read.Flight.Minimum.{Answered, flight-Answered}
use simple_cache.Load.{Run, versioned, Clock, Outcome, publish}
use simple_cache.Read.History.{Event, looked, fenced, cleaned, published, invalidated, step, run}
use simple_cache.Read.History.Effects.{Steps, run-Steps}
use simple_cache.Read.History.Flights.{overtaken_flight}

abbrev no_options : Options
no_options = record {
  ttl = 0;
  source_timeout = 0;
  epoch_buckets = 0;
  max_miss_waiters = 0;
  cleanup_interval = 0;
  cleanup_batch = 0;
}

abbrev default_options : Options
default_options = record {
  ttl = 60000000000;
  source_timeout = 800000000;
  epoch_buckets = 256;
  max_miss_waiters = 128;
  cleanup_interval = 1000000000;
  cleanup_batch = 128;
}

abbrev fresh : Group
fresh = empty_group 4096 default_options none

abbrev key : Bytes
key = 107 ∷ []

abbrev view : ByteView
view = record { b = 1 ∷ []; expires_at = 0; version = 1 }

abbrev clock : Clock
clock = record { first = 5; second = 6; third = 7 }

new_group-IsSound_example : IsSound fresh × ((k : Bytes) → resident k fresh.main_cache ≡ none)
unfolding new_group normalize_options
new_group-IsSound_example =
    new_group-IsSound (103 ∷ []) 4096 no_options none fresh (omega arith) refl

fresh-IsSound : IsSound fresh
fresh-IsSound = new_group-IsSound_example.0

apply_version-Invalidated_example : Invalidated key 2 fresh (apply_version 1 1 key 2 fresh)
apply_version-Invalidated_example = apply_version-Invalidated 1 1 key 2 fresh fresh-IsSound

apply_version-Moves_example : Moves (109 ∷ []) 2 fresh (apply_version 1 1 key 2 fresh)
apply_version-Moves_example = apply_version-Moves (109 ∷ []) 1 1 key 2 fresh fresh-IsSound.stripes

-- A value comes in, the key is invalidated, the maintenance worker runs.
abbrev events : List Event
events =
    published clock key (record { epoch = 0; minimum = 0 }) view
    ∷ invalidated 8 8 key (pos 2)
    ∷ cleaned false (λ i. 9) 9
    ∷ []

run-Steps_example : (g : Group) × (run events fresh ≡ some g) × Steps 6 fresh g
run-Steps_example = run-Steps events fresh fresh-IsSound

-- The key is looked up, then invalidated at version 2, then another fence is read.
overtaken_flight_example :
    (o : Outcome) × (publish clock key
        (read_barrier 1 key fresh).1
        view
        (read_barrier 3
          (109 ∷ [])
          (invalidate_version 2 2 key (pos 2) (read_barrier 1 key fresh).0).0).0
      ≡ some o)
    × ((k : Bytes) (w : ByteView)
        → resident k o.group.main_cache ≡ some w
        → resident k
            (read_barrier 3
              (109 ∷ [])
              (invalidate_version 2 2 key (pos 2) (read_barrier 1 key fresh).0).0).0.main_cache
          ≡ some w)
unfolding run step validate_key read_barrier Read.lookup known_version Area.get Area.version
overtaken_flight_example =
    overtaken_flight (looked none 1 key ∷ []) (fenced 3 (109 ∷ []) ∷ []) clock 1 2 2 key 2 view
      fresh (read_barrier 1 key fresh).0
      (read_barrier 3 (109 ∷ [])
        (invalidate_version 2 2 key (pos 2) (read_barrier 1 key fresh).0).0).0
      fresh-IsSound refl (omega arith) (omega arith) refl refl

abbrev source_answer : Run
source_answer = record {
  acquired = none;
  started = none;
  answer = versioned (1 ∷ []) (pos 1);
  ended = none;
  late = none;
  clock = clock;
}

-- The first load is overtaken by an invalidation at version 2, and so is stale; the second finds version 2.
abbrev plan : Plan
plan = record {
  look = record { ended = none; now = 1 };
  before_first = invalidated 2 2 key (pos 2) ∷ [];
  first = source_answer;
  given_up = none;
  before_barrier = [];
  barrier_now = 8;
  before_look = [];
  look_again = record { ended = none; now = 9 };
  before_second = [];
  second = record source_answer { answer = versioned (3 ∷ []) (pos 2) };
}

flight-Answered_example :
    (r : Reply) × (flight plan key (record { epoch = 0; minimum = 1 }) fresh ≡ some r)
    × Answered 1 r
flight-Answered_example =
    flight-Answered plan key (record { epoch = 0; minimum = 1 }) fresh fresh-IsSound

abbrev late_fence : ReadFence
late_fence = record { epoch = 3; minimum = 12 }

-- The key is "3:12:k".
flight_key-injective_example : (late_fence ≡ late_fence) × (key ≡ key)
flight_key-injective_example =
    flight_key-injective late_fence (record { epoch = 3; minimum = 12 }) key (107 ∷ []) refl

-- Another caller with the same fence and the same key.
shared_flight-Answered_example :
    (r : Reply) × (flight plan key (record { epoch = 0; minimum = 1 }) fresh ≡ some r)
    × Answered 1 r
    × (key ≡ key)
shared_flight-Answered_example =
    shared_flight-Answered plan (record { epoch = 0; minimum = 1 })
      (record { epoch = 0; minimum = 1 }) key key fresh fresh-IsSound refl
