-- ===== src/Read/Flight/Sharing.antt =====
-- read.go `flightKey`: which callers share a flight.
use simple_cache.Prelude.{◌≡◌, subst, some, ◌∷◌, ◌++◌, Bytes}
use simple_cache.Prelude.Decimal.{format, format-Lacks, split_at, format_injective}
use simple_cache.Group.{Group, ReadFence}
use simple_cache.Group.Invariant.{IsSound}
use simple_cache.Read.Flight.{flight_key, Plan, Reply, flight}
use simple_cache.Read.Flight.Minimum.{Answered, flight-Answered}

-- Two callers share a flight only if they read the same epoch and the same minimum, and ask for the same
-- key, whatever bytes the keys have.
pub flight_key-injective :
    (f g : ReadFence) (k j : Bytes) → flight_key f k ≡ flight_key g j → (f ≡ g) × (k ≡ j)
unfolding flight_key
flight_key-injective f g k j e =
    let (same_epoch, rest) =
      split_at 58 (format f.epoch) (format g.epoch) (format f.minimum ++ 58 ∷ k)
        (format g.minimum ++ 58 ∷ j) (format-Lacks f.epoch) (format-Lacks g.epoch) e in
    let (same_minimum, same_key) =
      split_at 58 (format f.minimum) (format g.minimum) k j (format-Lacks f.minimum)
        (format-Lacks g.minimum) rest in
    let p = format_injective f.epoch g.epoch same_epoch in
    let q = format_injective f.minimum g.minimum same_minimum in (cc (p, q), same_key)

-- A caller whose flight key is that of a flight under way, for a sound group, waits for the same key, and
-- what comes back without an error has at least the minimum of the caller's own fence.
pub shared_flight-Answered :
    (p : Plan) (f g : ReadFence) (k j : Bytes) (group : Group)
    → IsSound group
    → flight_key f k ≡ flight_key g j
    → (r : Reply) × (flight p k f group ≡ some r) × Answered g.minimum r × (k ≡ j)
shared_flight-Answered p f g k j group s e =
    let (same_fence, same_key) = flight_key-injective f g k j e in
    let (r, run, a) = flight-Answered p k f group s in
    (r, run, subst (λ (x : ReadFence). Answered x.minimum r) same_fence a, same_key)
