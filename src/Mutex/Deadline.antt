-- ===== src/Mutex/Deadline.antt =====
-- The deadline of `lsp_mutex_lock`.
use liblsp.Prelude.{ℕ, ◌+◌, ◌*◌, ◌<◌, ◌≡◌, ◌≢◌, arith, Option, none, some, if◌then◌else◌, ◌==◌}
use liblsp.Types.{err_none, err_mutex, timeout_max}
use liblsp.Time.{Timespec}
use liblsp.Mutex.{lock_deadline, lock, mutex_result}

-- The nanoseconds of a time.
abbrev pub nanos : Timespec → ℕ
nanos ts = ts.sec * 1000000000 + ts.nsec

-- The deadline of a lock has less than a second in its nanoseconds, and is the timeout later than now.
pub lock_deadline-nanos :
    (now : Timespec) (timeout : ℕ)
    → ((lock_deadline now timeout).nsec < 1000000000)
      × (nanos (lock_deadline now timeout) ≡ nanos now + timeout * 1000000)
unfolding lock_deadline
lock_deadline-nanos now timeout = ground arith

-- `lsp_mutex_lock` with a timeout succeeds where `pthread_mutex_timedlock` does by that deadline, and
-- gives the mutex error otherwise, without a clock too.
pub lock_timed :
    (untimed : ℕ) (timed : Timespec → ℕ) (clock : Option Timespec) (timeout : ℕ)
    → timeout ≢ timeout_max
    → lock untimed timed clock timeout ≡ (elim clock [
      | none ↦ err_mutex
      | some now ↦ if timed (lock_deadline now timeout) == 0 then err_none else err_mutex
    ])
unfolding lock mutex_result
lock_timed untimed timed clock timeout ne = ground arith
