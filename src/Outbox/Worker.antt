-- ===== src/Outbox/Worker.antt =====
-- internal/outbox/worker.go: one step of a worker, and its maintenance. What is sent, and how it ended, is
-- the parameter `deliver`; metrics are left out.
pub mod System
pub mod Delivery
pub mod Maintenance
use simple_cache.Prelude.{
  ℕ, zero, suc, ◌+◌, ◌*◌, Bool, true, false, Option, none, some, List, [], ◌∷◌, ltb, if◌then◌else◌,
}
use simple_cache.Errors.{Error}
use simple_cache.Outbox.{second, minute, retry_delay}
use simple_cache.Store.{Tables, Trip}
use simple_cache.Store.Queue.{Event, claim, finish, purge_delivered, is_null}

-- LeaseDuration and Retention
abbrev pub lease_duration : ℕ
lease_duration = 10 * second

abbrev pub retention : ℕ
retention = 10080 * minute

abbrev pub is_ok : Option Error → Bool
is_ok none = true
is_ok (some e) = false

-- The end of a step: Finish, after a delivery that ended with `sent`. Whether it worked, and the error.
unfoldable pub end_step :
    Trip → Option Error → ℕ → ℕ → Event → Tables → Tables × Bool × Option Error
end_step trip sent now later e t =
    let (t', owned, err) = finish trip e (is_ok sent) now later (retry_delay e.attempt) t in
    (t', true, err)

-- Step. `others` is what other processes do to the tables between the two statements.
unfoldable pub step :
    Trip
    → Trip
    → (ℕ → Bool)
    → ℕ
    → ℕ
    → ℕ
    → ℕ
    → (Event → Option Error)
    → (Tables → Tables)
    → Tables
    → Tables × Bool × Option Error
unfolding end_step
step trip trip' locked now later now' later' deliver others t =
    let (t', found, err) = claim trip locked now later lease_duration t in
    elim err [
      | some e ↦ (t', false, some e)
      | none ↦ elim found [
        | none ↦ (t', false, none)
        | some e ↦ end_step trip' (deliver e) now' later' e (others t')
      ]
    ]

-- The loop of maintain, on fuel. `ended` says when the shared deadline has passed, by rounds to go, and
-- `trip`, `locked` and `now` are those of each round.
unfoldable pub purge_loop :
    ℕ → (ℕ → Bool) → (ℕ → Trip) → (ℕ → ℕ → Bool) → (ℕ → ℕ) → Tables → Option (Tables × Option Error)
purge_loop zero ended trip locked now t = none
purge_loop (suc fuel) ended trip locked now t =
    let (t', removed, err) =
      purge_delivered (trip fuel) (locked fuel) (now fuel) retention 1000 t in
    let rest = purge_loop fuel ended trip locked now t' in
    if ended fuel then some (t, none) else elim err [
      | some e ↦ some (t', some e)
      | none ↦ if ltb removed 1000 then some (t', none) else rest
    ]
