-- ===== src/Outbox.antt =====
-- internal/outbox/worker.go: the delay before another attempt. Durations in nanoseconds; an attempt
-- below one is the first, so attempts are natural numbers.
pub mod Delays
pub mod Worker
use simple_cache.Prelude.{ℕ, zero, suc, ◌-◌, ◌*◌, Bool, true, false, ltb, if◌then◌else◌, min}

abbrev pub second : ℕ
second = 1000000000

abbrev pub minute : ℕ
minute = 60000000000

-- The loop of retryDelay, with `attempt - n` rounds to go.
unfoldable pub double_up : ℕ → ℕ → ℕ
double_up zero delay = delay
double_up (suc rounds) delay =
    let rest = double_up rounds (delay * 2) in if ltb delay minute then rest else delay

unfoldable pub retry_delay : ℕ → ℕ
unfolding double_up
retry_delay attempt = min (double_up (attempt - 1) second) minute
