-- ===== src/Time/Drift.antt =====
-- How far `lsp_gettime_ms` and `lsp_gettime_s` are from the time in milliseconds and in seconds.
use liblsp.Prelude.{ℕ, ◌+◌, ◌*◌, ◌/◌, ◌%◌, ◌≤◌, ◌<◌, ◌≡◌, some, arith, u32_mod}
use liblsp.Time.{Timespec, gettime_ms, gettime_s}

-- The time in milliseconds, as the name says.
abbrev pub millis : Timespec → ℕ
millis ts = ts.sec * 1000 + ts.nsec / 1000000

-- On the whole second the two agree, modulo 2^32.
pub gettime_ms_whole : (ts : Timespec) → ts.nsec ≡ 0 → gettime_ms (some ts) ≡ millis ts % u32_mod
unfolding gettime_ms
gettime_ms_whole ts h = rw h (omega arith)

-- In the first microsecond after a whole second, as long as nothing wraps, `lsp_gettime_ms` is a million
-- milliseconds ahead for each nanosecond, and at the next whole second it has gone back.
pub gettime_ms_goes_back :
    (s n : ℕ)
    → 1 ≤ n
    → n < 1000
    → s * 1000 + 1000000000 < u32_mod
    → (gettime_ms (some (record { sec = s; nsec = n }))
        ≡ millis (record { sec = s; nsec = n }) + n * 1000000)
      × (gettime_ms (some (record { sec = s + 1; nsec = 0 }))
          < gettime_ms (some (record { sec = s; nsec = n })))
unfolding gettime_ms
gettime_ms_goes_back s n h k small = omega arith

-- `lsp_gettime_s` gives a thousand times the seconds.
pub gettime_s_thousand :
    (ts : Timespec) → ts.sec * 1000 < u32_mod → gettime_s (some ts) ≡ ts.sec * 1000
unfolding gettime_s
gettime_s_thousand ts h = omega arith
