-- ===== src/Admission.antt =====
-- internal/cache/admission.go: the source limiter and the waiter slots. A channel of `struct{}` with a
-- buffer is its capacity and the number that it holds. `acquire` is a state machine, one transition for
-- each channel operation, since callers interleave between them.
pub mod Limits
pub mod Progress
use simple_cache.Prelude.{
  ℕ, zero, suc, ◌+◌, ◌-◌, ◌≡◌, Bool, true, false, Option, none, some, List, [], ◌∷◌, ◌++◌, ltb,
  ◌==◌, if◌then◌else◌,
}
use simple_cache.Errors.{Error, overloaded}

pub record Channel : Type 0 where
  pub capacity : ℕ
  pub held : ℕ

abbrev pub new_channel : ℕ → Channel
new_channel capacity = record { capacity = capacity; held = 0 }

-- A send in a select; `none` where it is not ready.
unfoldable pub send : Channel → Option Channel
send c = if ltb c.held c.capacity then some (record c { held = suc c.held }) else none

-- A receive; `none` where it blocks.
unfoldable pub receive : Channel → Option Channel
receive c = if c.held == 0 then none else some (record c { held = c.held - 1 })

-- Group.admit: the channel afterwards, and whether a slot was taken.
unfoldable pub admit : Channel → Channel × Bool
admit slots = elim (send slots) [ none ↦ (slots, false) | some s ↦ (s, true) ]

pub record SourceLimiter : Type 0 where
  pub slots : Channel
  pub waiting : Channel

-- NewSourceLimiterWithQueue; `none` is its panic. A negative queue is left out by the type.
unfoldable pub new_source_limiter : ℕ → ℕ → Option SourceLimiter
new_source_limiter limit max_pending =
    if limit == 0
    then none
    else some (record { slots = new_channel limit; waiting = new_channel max_pending })

-- Where a caller stands: before ctx.Err(), before each select, in the last select, with a slot or an
-- ended context before the deferred receive, after acquire, and after release.
pub data Phase : Type 0 where
  entering trying queueing parked admitted running finished : Phase
  expiring failed : Error → Phase

-- Both channels and the phase after an operation that was ready.
abbrev then_slots : SourceLimiter → Option Channel → Phase → Option (SourceLimiter × Phase)
then_slots l none p = none
then_slots l (some c) p = some (record l { slots = c }, p)

abbrev then_waiting : SourceLimiter → Option Channel → Phase → Option (SourceLimiter × Phase)
then_waiting l none p = none
then_waiting l (some c) p = some (record l { waiting = c }, p)

-- The next operation of a caller of acquire and release. `ended` is ctx.Err(), and `slot` says which
-- case the last select looks at. `none`: it blocks, or there is nothing left to do.
unfoldable pub move : Option Error → Bool → Phase → SourceLimiter → Option (SourceLimiter × Phase)
unfolding send receive
move none slot entering l = some (l, trying)
move (some e) slot entering l = some (l, failed e)
move ended slot trying l = elim (send l.slots) [
  | none ↦ some (l, queueing)
  | some c ↦ some (record l { slots = c }, running)
]
move ended slot queueing l = elim (send l.waiting) [
  | none ↦ some (l, failed overloaded)
  | some c ↦ some (record l { waiting = c }, parked)
]
move ended true parked l = then_slots l (send l.slots) admitted
move none false parked l = none
move (some e) false parked l = some (l, expiring e)
move ended slot admitted l = then_waiting l (receive l.waiting) running
move ended slot (expiring e) l = then_waiting l (receive l.waiting) (failed e)
move ended slot running l = then_slots l (receive l.slots) finished
move ended slot finished l = none
move ended slot (failed e) l = none

pub record System : Type 0 where
  pub limiter : SourceLimiter
  pub callers : List Phase

-- A caller comes, or one of them moves.
pub data Step : System → System → Type 0 where
  comes :
      (l : SourceLimiter) (callers : List Phase)
      → Step
          (record { limiter = l; callers = callers })
          (record { limiter = l; callers = entering ∷ callers })
  moves :
      (before after : List Phase) (p q : Phase) (l m : SourceLimiter) (ended : Option Error)
      (slot : Bool)
      → move ended slot p l ≡ some (m, q)
      → Step
          (record { limiter = l; callers = before ++ p ∷ after })
          (record { limiter = m; callers = before ++ q ∷ after })

pub data Reaches (s : System) : System → Type 0 where
  start : Reaches s s
  next : {t u : System} → Reaches s t → Step t u → Reaches s u
