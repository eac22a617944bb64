-- ===== src/Time.antt =====
-- src/arch/posix/lsp_time.c: the clock in milliseconds and in seconds, as `uint32_t`.
pub mod Drift
pub mod Uptime
mod Tests
use liblsp.Prelude.{
  ℕ, ◌+◌, ◌*◌, ◌%◌, ◌/◌, Bool, true, false, Option, none, some, List, ℤ, is_zero, if◌then◌else◌,
  u32_mod,
}

-- `struct timespec`
pub record Timespec : Type 0 where
  pub sec : ℕ
  pub nsec : ℕ

-- `lsp_gettime_ms`. The argument is what `clock_gettime` gives, `none` for an error.
unfoldable pub gettime_ms : Option Timespec → ℕ
gettime_ms none = 0
gettime_ms (some ts) =
    (((ts.sec % u32_mod) * 1000) % u32_mod + ((ts.nsec % u32_mod) * 1000000) % u32_mod) % u32_mod

unfoldable pub gettime_s : Option Timespec → ℕ
gettime_s none = 0
gettime_s (some ts) = ((ts.sec % u32_mod) * 1000) % u32_mod

-- `lsp_uptime`. `opened` says whether /proc/uptime could be opened, `line` is what `fgets` reads of it.
-- `sscanf` is given the line and the value of `uptime`; it gives its result, an `int`, and the value
-- then. A double is its whole seconds, which the result keeps.
unfoldable pub uptime :
    (opened : Bool) → (line : Option (List ℕ)) → (sscanf : List ℕ → ℕ → ℤ × ℕ) → ℕ
uptime false line sscanf = 0
uptime true none sscanf = 0
uptime true (some buf) sscanf =
    let (res, seconds) = sscanf buf 0 in if is_zero res then seconds % u32_mod else 0
