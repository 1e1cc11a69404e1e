-- ===== src/Outbox/Delays.antt =====
-- worker.go `retryDelay`: the delay doubles with each attempt, up to a minute.
use simple_cache.Prelude.{
  ℕ, zero, suc, ◌-◌, ◌*◌, ◌≤◌, ◌<◌, ◌≡◌, refl, inl, inr, ltb, min, Bool-cases, arith,
}
use simple_cache.Outbox.{second, minute, double_up, retry_delay}

-- So many doublings, without a limit.
unfoldable pub doubled : ℕ → ℕ → ℕ
doubled zero delay = delay
doubled (suc rounds) delay = doubled rounds (delay * 2)

doubled-grows : (rounds delay : ℕ) → delay ≤ doubled rounds delay
unfolding doubled
doubled-grows zero delay = omega arith
doubled-grows (suc rounds) delay = omega (arith, doubled-grows rounds (delay * 2))

double_up-doubled :
    (rounds delay : ℕ) → min (double_up rounds delay) minute ≡ min (doubled rounds delay) minute
unfolding double_up doubled
double_up-doubled zero delay = refl
double_up-doubled (suc rounds) delay = elim (Bool-cases (ltb delay minute)) [
  | inl short ↦ rw (short, double_up) (double_up-doubled rounds (delay * 2))
  | inr long ↦ rw (long, double_up) (ground (arith, long, doubled-grows rounds (delay * 2)))
]

-- No delay in the loop passes two minutes, so the int64 does not wrap.
double_up-small : (rounds delay : ℕ) → delay < 2 * minute → double_up rounds delay < 2 * minute
unfolding double_up
double_up-small zero delay h = h
double_up-small (suc rounds) delay h = elim (Bool-cases (ltb delay minute)) [
  | inl short ↦ rw (short, double_up) (double_up-small rounds (delay * 2) (ground (arith, short)))
  | inr long ↦ rw (long, double_up) h
]

-- For every attempt: the delay is a second doubled once for each attempt after the first, or a minute if
-- that is less; it is from a second to a minute; and the loop stays below two minutes.
pub retry_delay-doubled :
    (attempt : ℕ)
    → (retry_delay attempt ≡ min (doubled (attempt - 1) second) minute)
      × (second ≤ retry_delay attempt)
      × (retry_delay attempt ≤ minute)
      × (double_up (attempt - 1) second < 2 * minute)
unfolding retry_delay
retry_delay-doubled attempt =
    let same = double_up-doubled (attempt - 1) second in
    (
      same,
      omega (arith, same, doubled-grows (attempt - 1) second),
      omega arith,
      double_up-small (attempt - 1) second (omega arith),
    )
