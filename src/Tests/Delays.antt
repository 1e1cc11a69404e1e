-- ===== src/Tests/Delays.antt =====
-- internal/outbox/worker.go at fixed inputs.
use simple_cache.Prelude.{◌-◌, ◌*◌, ◌≤◌, ◌<◌, ◌≡◌, refl, min}
use simple_cache.Outbox.{second, minute, double_up, retry_delay}
use simple_cache.Outbox.Delays.{doubled, retry_delay-doubled}

-- The fourth attempt waits eight seconds.
fourth_delay : retry_delay 4 ≡ 8 * second
unfolding retry_delay double_up
fourth_delay = refl

retry_delay-doubled_example :
    (retry_delay 4 ≡ min (doubled (4 - 1) second) minute)
    × (second ≤ retry_delay 4)
    × (retry_delay 4 ≤ minute)
    × (double_up (4 - 1) second < 2 * minute)
retry_delay-doubled_example = retry_delay-doubled 4
