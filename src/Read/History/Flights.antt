-- ===== src/Read/History/Flights.antt =====
-- versions.go and load.go: the promise of the fences. A flight whose fence was read before an
-- invalidation cannot bring an older value back, whatever happens before it publishes.
use simple_cache.Prelude.{
  ℕ, ◌+◌, ◌*◌, ◌%◌, ◌^◌, ◌≤◌, ◌<◌, ◌≡◌, refl, ◌⊎◌, inl, inr, none, some, List, Bytes, length, arith,
}
use simple_cache.Prelude.Int.{pos}
use simple_cache.Errors.{validate_key}
use simple_cache.Area.{ByteView}
use simple_cache.Area.Laws.{resident}
use simple_cache.Group.{Group, ReadFence, current_epoch, read_barrier, invalidate_version}
use simple_cache.Group.Stripes.{floor_of, Moves, Moves-trans, Moves-trans-zero}
use simple_cache.Group.Fences.{known_version-Moves}
use simple_cache.Group.Invariant.{IsSound, known_version-IsSound, Invalidated}
use simple_cache.Group.Invalidation.{apply_version-Invalidated}
use simple_cache.Load.{Clock, Outcome, publish}
use simple_cache.Load.Publication.{publish-Published}
use simple_cache.Read.History.{Event, run}
use simple_cache.Read.History.Effects.{run-Reaches}

-- Between the fence and the publication: the floor is the invalidated version, or the epoch is another.
crossed :
    (k : Bytes) (m n v : ℕ) (a b c : Group)
    → Moves k m a b
    → v ≤ floor_of k b
    → Moves k n b c
    → m + n < 2 ^ 64
    → (v ≤ floor_of k c) ⊎ ((current_epoch k a % 2 ^ 64 ≡ current_epoch k c % 2 ^ 64) → ⊥)
crossed k m n v a b c p low q few = elim q.floor [
  | inr kept ↦ inl (omega (arith, low, kept))
  | inl bumped ↦ inr (λ same. omega (arith, same, bumped, p.epoch, q.epoch, p.few, q.few, few))
]

-- The invalidation of an accepted key, with what it records.
invalidate_applied :
    (now later : ℕ) (key : Bytes) (v : ℕ) (g : Group)
    → validate_key key ≡ none
    → IsSound g
    → Invalidated key v g (invalidate_version now later key (pos v) g).0
unfolding invalidate_version
invalidate_applied now later key v g ok s =
    rw (ok, invalidate_version) (apply_version-Invalidated now later key v g s)

-- The value of a flight that an invalidation overtook does not enter.
overtaken :
    (t : Clock) (key : Bytes) (fence : ReadFence) (view : ByteView) (v m n : ℕ) (a b c : Group)
    → fence.epoch ≡ current_epoch key a
    → Moves key m a b
    → v ≤ floor_of key b
    → Moves key n b c
    → m + n < 2 ^ 64
    → view.version < v
    → IsSound c
    → (o : Outcome) × (publish t key fence view c ≡ some o)
      × ((k : Bytes) (w : ByteView)
          → resident k o.group.main_cache ≡ some w
          → resident k c.main_cache ≡ some w)
overtaken t key fence view v m n a b c e p low q few old s =
    let (o, r, x) = publish-Published t key fence view c s in
    (
      o,
      r,
      λ k w h. elim (x.changed k w h) [
        | inl before ↦ before
        | inr entered ↦ absurd (elim (crossed key m n v a b c p low q few) [
          | inl floor ↦ omega (arith, floor, entered.floor, old)
          | inr moved ↦ moved (ground (arith, e, entered.epoch))
        ])
      ],
    )

-- From a sound group, a fence for a valid key is read; any critical sections run; the key is invalidated at version `v`; any
-- critical sections run again; then a source value older than `v` is published under the fence. With
-- fewer than 2 ^ 60 critical sections in all, the publication returns and nothing is resident after it
-- that was not resident before: the older value does not come back.
pub overtaken_flight :
    (before after : List Event) (t : Clock) (start now later : ℕ) (key : Bytes) (v : ℕ)
    (view : ByteView) (g g1 g2 : Group)
    → IsSound g
    → validate_key key ≡ none
    → length before + length after < 2 ^ 60
    → view.version < v
    → run before (read_barrier start key g).0 ≡ some g1
    → run after (invalidate_version now later key (pos v) g1).0 ≡ some g2
    → (o : Outcome) × (publish t key (read_barrier start key g).1 view g2 ≡ some o)
      × ((k : Bytes) (w : ByteView)
          → resident k o.group.main_cache ≡ some w
          → resident k g2.main_cache ≡ some w)
unfolding read_barrier
overtaken_flight before after t start now later key v view g g1 g2 s ok few old r1 r2 =
    let a = (read_barrier start key g).0 in
    let first = known_version-Moves key start key g s.stripes in
    let p1 = run-Reaches before a g1 (known_version-IsSound start key g s) r1 in
    let i = invalidate_applied now later key v g1 ok p1.sound in
    let b = (invalidate_version now later key (pos v) g1).0 in
    let q1 = run-Reaches after b g2 i.sound r2 in
    let m = 2 * length before + 2 in
    overtaken t key (read_barrier start key g).1 view v m (2 * length after) g b g2 refl
      (Moves-trans-zero key m g a b first
        (Moves-trans key (2 * length before) 2 a g1 b (p1.moves key) (i.moves key)))
      i.recorded (q1.moves key) (omega (arith, few)) old q1.sound
