-- ===== src/Read/Flight/Minimum.antt =====
-- read.go: a flight ends, and what it gives back is never below the minimum of its fence.
use simple_cache.Prelude.{
  ℕ, ◌≤◌, ◌≡◌, refl, ◌∙◌, inl, inr, Bool, true, false, not, ◌||◌, Option, none, some, Bytes,
  Option-cases, Bool-cases, arith,
}
use simple_cache.Errors.{Error}
use simple_cache.Area.{ByteView}
use simple_cache.Group.{Group, ReadFence, with_minimum, read_barrier}
use simple_cache.Group.Invariant.{IsSound, known_version-IsSound}
use simple_cache.Load.{
  Clock, Run, Outcome, Checked, refused, accepted, check_answer, first_error, give_up, load_source,
}
use simple_cache.Load.Publication.{Published, publish-Published}
use simple_cache.Read.{lookup_at_least}
use simple_cache.Read.History.Effects.{run-Steps, lookup-Steps}
use simple_cache.Read.Flight.{
  Gap, Look, Plan, Reply, some_error, is_stale, found_reply, outcome_reply, load_after,
  second_attempt, look_or, look_again, retry, first_attempt, flight,
}

-- The outcome of a load, at or above the minimum of its fence.
record Loaded (fence : ReadFence) (o : Outcome) : Type 0 where
  sound : IsSound o.group
  minimum : fence.minimum ≤ o.result.minimum
  value : o.error ≡ none → o.result.minimum ≤ o.result.value.version

given_up-Loaded :
    (fence : ReadFence) (e : Error) (g : Group) → IsSound g → Loaded fence (give_up fence e g)
unfolding give_up
given_up-Loaded fence e g s = record { sound = s; minimum = omega arith; value = λ h. cc }

Published-Loaded :
    (t : Clock) (key : Bytes) (fence : ReadFence) (view : ByteView) (g : Group) (o : Outcome)
    → Published t key fence view g o
    → Loaded fence o
Published-Loaded t key fence view g o p = record {
  sound = p.sound;
  minimum = p.known.minimum;
  value = λ h. ground (arith, p.answer);
}

load_source-Loaded :
    (work : Run) (key : Bytes) (fence : ReadFence) (g : Group)
    → IsSound g
    → (o : Outcome) × (load_source work key fence g ≡ some o) × Loaded fence o
unfolding load_source
load_source-Loaded work key fence g s =
    elim (Option-cases (first_error work.acquired work.started)) [
      | inr (e, early) ↦ (_, rw (early, load_source) refl, given_up-Loaded fence e g s)
      | inl ready ↦ answered work key fence g s ready (check_answer work.ended work.answer) refl
    ]
  where
    answered :
        (work : Run) (key : Bytes) (fence : ReadFence) (g : Group)
        → IsSound g
        → first_error work.acquired work.started ≡ none
        → (c : Checked) → check_answer work.ended work.answer ≡ c
        → (o : Outcome) × (load_source work key fence g ≡ some o) × Loaded fence o
    answered work key fence g s ready (refused e) q =
        (_, rw (ready, load_source, q) refl, given_up-Loaded fence e g s)
    answered work key fence g s ready (accepted b version) q = elim (Option-cases work.late) [
      | inr (e, late) ↦ (_, rw (ready, load_source, q, late) refl, given_up-Loaded fence e g s)
      | inl live ↦
          let view : ByteView = record { b = b; expires_at = 0; version = version } in
          let (o, r, p) = publish-Published work.clock key fence view g s in
          (
            o,
            rw (ready, load_source, q, live, r) refl,
            Published-Loaded work.clock key fence view g o p,
          )
    ]

load_after-Loaded :
    (gap : Gap) (work : Run) (key : Bytes) (fence : ReadFence) (g : Group)
    → IsSound g
    → (o : Outcome) × (load_after gap work key fence g ≡ some o) × Loaded fence o
unfolding load_after
load_after-Loaded gap work key fence g s =
    let (g', r, p) = run-Steps gap g s in
    let (o, q, l) = load_source-Loaded work key fence g' p.sound in
    (o, rw (r, load_after, q) refl, l)

-- What a flight gives back.
pub record Answered (minimum : ℕ) (r : Reply) : Type 0 where
  pub sound : IsSound r.group
  pub value : r.error ≡ none → minimum ≤ r.value.version

abbrev Answers : ℕ → Option Reply → Type 0
Answers minimum x = (r : Reply) × (x ≡ some r) × Answered minimum r

second_attempt-Answers :
    (p : Plan) (key : Bytes) (fence : ReadFence) (g : Group)
    → IsSound g
    → Answers fence.minimum (second_attempt p key fence g)
unfolding second_attempt
second_attempt-Answers p key fence g s =
    let (o, q, l) = load_after-Loaded p.before_second p.second key fence g s in
    (
      outcome_reply o,
      rw (q, second_attempt) refl,
      record { sound = l.sound; value = λ h. omega (arith, l.minimum, l.value h) },
    )

lookup_at_least-minimum :
    (ended : Option Error) (now : ℕ) (key : Bytes) (minimum : ℕ) (g : Group)
    → (lookup_at_least ended now key minimum g).1.hit ≡ true
    → minimum ≤ (lookup_at_least ended now key minimum g).1.view.version
unfolding lookup_at_least
lookup_at_least-minimum ended now key minimum g h = ground arith

lookup_at_least-IsSound :
    (ended : Option Error) (now : ℕ) (key : Bytes) (minimum : ℕ) (g : Group)
    → IsSound g
    → IsSound (lookup_at_least ended now key minimum g).0
unfolding lookup_at_least
lookup_at_least-IsSound ended now key minimum g s = (lookup-Steps ended now key g s).sound

hit_of_answer :
    (hit : Bool) (e : Option Error) → (hit || some_error e) ≡ true → e ≡ none → hit ≡ true
hit_of_answer hit e h q = ground arith

look_or_answered :
    (l : Look) (key : Bytes) (fence : ReadFence) (next : Group → Option Reply) (g : Group)
    → let r = lookup_at_least l.ended l.now key fence.minimum g in
      (r.1.hit || some_error r.1.error) ≡ true
      → look_or l key fence next g ≡ some (found_reply r.0 r.1)
unfolding look_or
look_or_answered l key fence next g h = rw h refl

look_or_missed :
    (l : Look) (key : Bytes) (fence : ReadFence) (next : Group → Option Reply) (g : Group)
    → let r = lookup_at_least l.ended l.now key fence.minimum g in
      (r.1.hit || some_error r.1.error) ≡ false → look_or l key fence next g ≡ next r.0
unfolding look_or
look_or_missed l key fence next g h = rw h refl

look_or-Answers :
    (l : Look) (key : Bytes) (minimum : ℕ) (fence : ReadFence) (next : Group → Option Reply)
    (g : Group)
    → minimum ≤ fence.minimum
    → IsSound g
    → ((h : Group) → IsSound h → Answers minimum (next h))
    → Answers minimum (look_or l key fence next g)
look_or-Answers l key minimum fence next g low s rest =
    let r = lookup_at_least l.ended l.now key fence.minimum g in
    let sound = lookup_at_least-IsSound l.ended l.now key fence.minimum g s in
    elim (Bool-cases (r.1.hit || some_error r.1.error)) [
      | inl answered ↦ (
        found_reply r.0 r.1,
        look_or_answered l key fence next g answered,
        record {
          sound = sound;
          value = λ h. omega (
            arith,
            low,
            lookup_at_least-minimum l.ended l.now key fence.minimum g
                (hit_of_answer r.1.hit r.1.error answered h),
          );
        },
      )
      | inr missed ↦
          let (o, q, a) = rest r.0 sound in (o, look_or_missed l key fence next g missed ∙ q, a)
    ]

Answered-weaken : (m n : ℕ) (x : Option Reply) → m ≤ n → Answers n x → Answers m x
Answered-weaken m n x h (r, e, a) =
    (r, e, record { sound = a.sound; value = λ q. omega (arith, h, a.value q) })

look_again-Answers :
    (p : Plan) (key : Bytes) (fence : ReadFence) (g : Group)
    → IsSound g
    → Answers fence.minimum (look_again p key fence g)
unfolding look_again
look_again-Answers p key fence g s =
    let (g', r, q) = run-Steps p.before_look g s in
    let (o, e, a) =
      look_or-Answers p.look_again key fence.minimum fence (second_attempt p key fence) g'
        (omega arith) q.sound (second_attempt-Answers p key fence) in
    (o, rw (r, look_again) e, a)

retry-Answers :
    (p : Plan) (key : Bytes) (fence : ReadFence) (g : Group)
    → IsSound g
    → Answers fence.minimum (retry p key fence g)
unfolding retry with_minimum read_barrier
retry-Answers p key fence g s =
    let (g', r, q) = run-Steps p.before_barrier g s in
    let b = read_barrier p.barrier_now key g' in
    let next = with_minimum fence.minimum b.1 in
    let (o, e, a) =
      Answered-weaken fence.minimum next.minimum (look_again p key next b.0) (omega arith)
        (look_again-Answers p key next b.0 (known_version-IsSound p.barrier_now key g' q.sound)) in
    (o, rw (r, retry) e, a)

first_attempt-Answers :
    (p : Plan) (key : Bytes) (fence : ReadFence) (g : Group)
    → IsSound g
    → Answers fence.minimum (first_attempt p key fence g)
unfolding first_attempt with_minimum
first_attempt-Answers p key fence g s =
    let (o, q, l) = load_after-Loaded p.before_first p.first key fence g s in
    let fence' = with_minimum o.result.minimum fence in
    elim (Bool-cases (not (is_stale o.error) || some_error p.given_up)) [
      | inl final ↦ (
        outcome_reply o,
        rw (q, first_attempt, final) refl,
        record { sound = l.sound; value = λ h. omega (arith, l.minimum, l.value h) },
      )
      | inr again ↦
          let (r, e, a) =
            Answered-weaken fence.minimum fence'.minimum (retry p key fence' o.group) (omega arith)
              (retry-Answers p key fence' o.group l.sound) in
          (r, rw (q, first_attempt, again) e, a)
    ]

-- A flight from a sound group, with any critical sections of others between its own, returns: at most
-- two loads, and every eviction loop ends. The group is sound afterwards, and a value that comes back
-- without an error has at least the minimum version of the fence.
pub flight-Answered :
    (p : Plan) (key : Bytes) (fence : ReadFence) (g : Group)
    → IsSound g
    → (r : Reply) × (flight p key fence g ≡ some r) × Answered fence.minimum r
unfolding flight
flight-Answered p key fence g s =
    look_or-Answers p.look key fence.minimum fence (first_attempt p key fence) g (omega arith) s
      (first_attempt-Answers p key fence)
