-- ===== src/Tests/Admissions.antt =====
-- internal/cache/admission.go at fixed inputs: one slot, one place in the queue, three callers.
use simple_cache.Prelude.{ℕ, ◌≡◌, refl, true, none, [], ◌∷◌}
use simple_cache.Admission.{
  SourceLimiter, send, new_source_limiter, entering, trying, queueing, parked, running, move,
  System, comes, moves, Reaches, start, next,
}
use simple_cache.Admission.Limits.{
  place_of, count, IsAccounted, idle, new_source_limiter-IsAccounted,
}
use simple_cache.Admission.Progress.{Mover, new_source_limiter-Mover, overloaded-full}

-- So many slots and places taken.
abbrev taken : ℕ → ℕ → SourceLimiter
taken slots places = record {
  slots = record { capacity = 1; held = slots };
  waiting = record { capacity = 1; held = places };
}

-- The first caller has the slot.
abbrev one_running : System
one_running = record { limiter = taken 1 0; callers = running ∷ [] }

one_running-reached : Reaches (idle (taken 0 0)) one_running
unfolding move send
one_running-reached =
    next
      (next (next start (comes (taken 0 0) []))
        (moves [] [] entering trying (taken 0 0) (taken 0 0) none true refl))
      (moves [] [] trying running (taken 0 0) (taken 1 0) none true refl)

-- The second waits for it.
abbrev one_parked : System
one_parked = record { limiter = taken 1 1; callers = parked ∷ running ∷ [] }

one_parked-reached : Reaches (idle (taken 0 0)) one_parked
unfolding move send
one_parked-reached =
    next
      (next
        (next (next one_running-reached (comes (taken 1 0) (running ∷ [])))
          (moves [] (running ∷ []) entering trying (taken 1 0) (taken 1 0) none true refl))
        (moves [] (running ∷ []) trying queueing (taken 1 0) (taken 1 0) none true refl))
      (moves [] (running ∷ []) queueing parked (taken 1 0) (taken 1 1) none true refl)

-- The third found no slot.
abbrev one_refused : System
one_refused = record { limiter = taken 1 1; callers = queueing ∷ parked ∷ running ∷ [] }

one_refused-reached : Reaches (idle (taken 0 0)) one_refused
unfolding move send
one_refused-reached =
    next
      (next (next one_parked-reached (comes (taken 1 1) (parked ∷ running ∷ [])))
        (moves [] (parked ∷ running ∷ []) entering trying (taken 1 1) (taken 1 1) none true refl))
      (moves [] (parked ∷ running ∷ []) trying queueing (taken 1 1) (taken 1 1) none true refl)

new_source_limiter-IsAccounted_example : IsAccounted 1 1 one_refused
unfolding new_source_limiter
new_source_limiter-IsAccounted_example =
    new_source_limiter-IsAccounted 1 1 (taken 0 0) one_refused refl one_refused-reached

-- The second caller waits, and some caller can move.
new_source_limiter-Mover_example : Mover one_refused
unfolding new_source_limiter
new_source_limiter-Mover_example =
    new_source_limiter-Mover 1 1 (taken 0 0) one_refused (queueing ∷ []) (running ∷ []) parked refl
      one_refused-reached refl (λ done. done)

overloaded-full_example : count place_of one_refused.callers ≡ 1
unfolding new_source_limiter move send
overloaded-full_example =
    overloaded-full 1 1 (taken 0 0) (taken 1 1) one_refused none true refl one_refused-reached refl
