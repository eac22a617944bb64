-- ===== src/Mutex.antt =====
-- src/arch/posix/lsp_mutex.c: the deadline of a lock, and the results.
pub mod Deadline
mod Tests
use liblsp.Prelude.{ℕ, ◌+◌, ◌*◌, ◌/◌, ◌%◌, Option, none, some, ◌==◌, leb, if◌then◌else◌}
use liblsp.Types.{err_none, err_mutex, timeout_max}
use liblsp.Time.{Timespec}

-- `if (rc)` at the end of each function: its result, from the one of pthread.
unfoldable pub mutex_result : ℕ → ℕ
mutex_result rc = if rc == 0 then err_none else err_mutex

-- The time that a lock waits to, from the current one and a timeout in milliseconds.
unfoldable pub lock_deadline : Timespec → ℕ → Timespec
lock_deadline now timeout =
    let sec = now.sec + timeout / 1000 in
    let nsec = now.nsec + (timeout % 1000) * 1000000 in
    if leb 1000000000 nsec
    then record { sec = sec + nsec / 1000000000; nsec = nsec % 1000000000 }
    else record { sec = sec; nsec = nsec }

-- `lsp_mutex_lock`. `clock` is what `clock_gettime` gives; `pthread_mutex_lock` and
-- `pthread_mutex_timedlock` give 0 or an error number.
unfoldable pub lock :
    (pthread_mutex_lock : ℕ)
    → (pthread_mutex_timedlock : Timespec → ℕ) → (clock : Option Timespec) → (timeout : ℕ) → ℕ
lock pthread_mutex_lock pthread_mutex_timedlock clock timeout =
    if timeout == timeout_max then mutex_result pthread_mutex_lock else elim clock [
      | none ↦ err_mutex
      | some now ↦ mutex_result (pthread_mutex_timedlock (lock_deadline now timeout))
    ]

-- `lsp_mutex_init`, `lsp_mutex_destroy` and `lsp_mutex_unlock`, from what pthread returns.
unfoldable pub mutex_init : (pthread_mutex_init : ℕ) → ℕ
mutex_init pthread_mutex_init = mutex_result pthread_mutex_init

unfoldable pub mutex_destroy : (pthread_mutex_destroy : ℕ) → ℕ
mutex_destroy pthread_mutex_destroy = mutex_result pthread_mutex_destroy

unfoldable pub mutex_unlock : (pthread_mutex_unlock : ℕ) → ℕ
mutex_unlock pthread_mutex_unlock = mutex_result pthread_mutex_unlock
