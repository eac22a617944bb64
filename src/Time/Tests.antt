-- ===== src/Time/Tests.antt =====
-- The theorems about the clock, at a few times.
use liblsp.Prelude.{◌≡◌, refl, some}
use liblsp.Time.{gettime_ms}

five : gettime_ms (some (record { sec = 5; nsec = 0 })) ≡ 5000
unfolding gettime_ms
five = refl
