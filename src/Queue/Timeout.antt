-- ===== src/Queue/Timeout.antt =====
-- `queue_wait_internal`: the deadline of a wait on a queue.
use liblsp.Prelude.{
  ℕ, ◌+◌, ◌*◌, ◌/◌, ◌%◌, ◌≤◌, ◌≡◌, ◌≢◌, arith, Option, none, some, if◌then◌else◌, ◌==◌, test_of_ne,
}
use liblsp.Types.{timeout_max}
use liblsp.Time.{Timespec}
use liblsp.Mutex.Deadline.{nanos}
use liblsp.Queue.{WaitResult, failed}

-- The time that a wait goes to. Nothing carries over from the nanoseconds to the seconds.
unfoldable pub wait_deadline : Timespec → ℕ → Timespec
wait_deadline now timeout = record {
  sec = now.sec + timeout / 1000;
  nsec = now.nsec + (timeout % 1000) * 1000000;
}

-- `queue_wait_internal`. `cond_wait` and `cond_timedwait` are how the pthread calls end, `clock` is what
-- `clock_gettime` gives.
unfoldable pub wait_internal :
    (cond_wait : WaitResult)
    → (cond_timedwait : Timespec → WaitResult) → (clock : Option Timespec) → (timeout : ℕ)
    → WaitResult
wait_internal cond_wait cond_timedwait clock timeout =
    if timeout == timeout_max
    then cond_wait
    else elim clock [ none ↦ cond_wait | some now ↦ cond_timedwait (wait_deadline now timeout) ]

-- Where the nanoseconds of the clock and of the timeout add up to a second or more, the deadline is the
-- timeout later than now, but the wait fails, given a `pthread_cond_timedwait` that refuses a time with
-- that many nanoseconds.
pub wait_fails :
    (cond_wait : WaitResult) (cond_timedwait : Timespec → WaitResult) (now : Timespec) (timeout : ℕ)
    → ((ts : Timespec) → 1000000000 ≤ ts.nsec → cond_timedwait ts ≡ failed)
    → timeout ≢ timeout_max
    → 1000000000 ≤ now.nsec + (timeout % 1000) * 1000000
    → (nanos (wait_deadline now timeout) ≡ nanos now + timeout * 1000000)
      × (wait_internal cond_wait cond_timedwait (some now) timeout ≡ failed)
unfolding wait_internal wait_deadline
wait_fails cond_wait cond_timedwait now timeout refuses ne late =
    (omega arith, rw (test_of_ne timeout timeout_max ne) (refuses _ late))
