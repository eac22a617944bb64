-- ===== src/Egroup.antt =====
-- src/arch/posix/lsp_egroup.c: event groups, of which a thread waits for bits that others set.
pub mod Set
pub mod Threads
pub mod Wait
mod Tests
use Prim.Native.Nat.{bit_and, bit_or}
use liblsp.Prelude.{
  ℕ, zero, suc, ◌+◌, ◌-◌, ◌*◌, ◌/◌, ◌%◌, Bool, true, false, not, ◌&&◌, ◌||◌, Option, none, some,
  List, ◌∷◌, ◌==◌, ltb, if◌then◌else◌, Ptr, null, Run, ok, out_of_fuel, and_then, u32_mod,
}
use liblsp.Types.{err_none, timeout_max}
use liblsp.Time.{Timespec}

-- `lsp_egroup_bits_t` is a `uint32_t`.
abbrev pub all_bits : ℕ
all_bits = u32_mod - 1

-- `event_bits & ~bits`
abbrev pub without : ℕ → ℕ → ℕ
without event_bits bits = bit_and event_bits (all_bits - bits)

-- `egroup_wait_internal`, with the results of the pthread calls: the deadline has nothing carried
-- over from the nanoseconds to the seconds.
unfoldable pub egroup_wait_internal :
    (cond_wait : ℕ)
    → (cond_timedwait : Timespec → ℕ) → (clock : Option Timespec) → (timeout : ℕ) → ℕ
egroup_wait_internal cond_wait cond_timedwait clock timeout =
    if timeout == timeout_max then cond_wait else elim clock [
      | none ↦ cond_wait
      | some now ↦
          cond_timedwait (record {
            sec = now.sec + timeout / 1000;
            nsec = now.nsec + (timeout % 1000) * 1000000;
          })
    ]

-- What a thread waits for: all of the bits, or any of them.
unfoldable pub met : (wait_all : Bool) → (bits event_bits : ℕ) → Bool
met true bits event_bits = bit_and event_bits bits == bits
met false bits event_bits = not (bit_and event_bits bits == 0)

-- `lsp_egroup_init`: the result has no value.
unfoldable pub egroup_init : (clock_ok cond_ok : Bool) → (event_bits : ℕ) → Option ℕ × ℕ
egroup_init clock_ok cond_ok event_bits = (none, if clock_ok && cond_ok then 0 else event_bits)

-- `lsp_egroup_create`: the handle, and whether its block is freed again.
unfoldable pub egroup_create : (malloc : Ptr) → (clock_ok cond_ok : Bool) → Ptr × Bool
egroup_create malloc clock_ok cond_ok =
    if malloc == null
    then (null, false)
    else if clock_ok && cond_ok
    then (malloc, false)
    else (null, true)

-- `lsp_egroup_destroy`, with the blocks that were freed. Nothing looks whether a thread waits.
unfoldable pub egroup_destroy : Ptr → (freed : List Ptr) → List Ptr
egroup_destroy handle freed = handle ∷ freed

-- `lsp_egroup_set`: the bits that it returns and leaves. `lock` is the result of `lsp_mutex_lock`.
unfoldable pub egroup_set : (lock : ℕ) → (bits event_bits : ℕ) → ℕ
egroup_set lock bits event_bits = if lock == err_none then bit_or event_bits bits else event_bits

-- What `lsp_egroup_wait` leaves of the bits.
unfoldable pub leave_bits : (bits : ℕ) → (clear_on_exit : Bool) → ℕ → ℕ
leave_bits bits clear_on_exit e = if clear_on_exit then 0 else without e bits

-- The i-th wait of a call: `wake i timeout e` gives the result of `egroup_wait_internal`, and the bits that
-- the other threads have made of `e` by its end.
abbrev pub Wake : Type 0
Wake = (i timeout : ℕ) → ℕ → ℕ × ℕ

module _ (wake : Wake) (wait_all : Bool) (bits : ℕ) where
  -- The loops of `lsp_egroup_wait` without a timeout; what they give are the bits at their end.
  unfoldable pub wait_forever : (fuel i : ℕ) → ℕ → Run ℕ
  wait_forever zero i e = if met wait_all bits e then ok e else out_of_fuel
  wait_forever (suc fuel) i e =
      let (rc, e1) = wake i timeout_max e in
      elim (met wait_all bits e) [
        | true ↦ ok e
        | false ↦ elim (rc == 0) [ false ↦ ok e1 | true ↦ wait_forever fuel (suc i) e1 ]
      ]

  -- The time left, of a `uint32_t`.
  abbrev pub time_left : (max_time now : ℕ) → ℕ
  time_left max_time now = if ltb now max_time then max_time - now else 0

  -- The loops with a timeout, of which `remaining` is left. `clock i` is what `lsp_gettime_ms` gives before
  -- the i-th wait, `etimedout` the number of that error.
  unfoldable pub wait_until :
      (etimedout : ℕ) → (clock : ℕ → ℕ) → (max_time : ℕ) → (fuel i remaining : ℕ) → ℕ → Run ℕ
  wait_until etimedout clock max_time zero i remaining e =
      if ltb 0 remaining then out_of_fuel else ok e
  wait_until etimedout clock max_time (suc fuel) i remaining e =
      let left = time_left max_time (clock i) in
      let (rc, e1) = wake i left e in
      elim (ltb 0 remaining) [
        | false ↦ ok e
        | true ↦ elim (rc == 0 || rc == etimedout) [
          | false ↦ ok e1
          | true ↦ elim (met wait_all bits e1) [
            | true ↦ ok e1
            | false ↦ wait_until etimedout clock max_time fuel (suc i) left e1
          ]
        ]
      ]

  -- `lsp_egroup_wait`: the bits that it returns, none where these have no value, and those that it leaves.
  -- `lock` is the result of `lsp_mutex_lock`, `now` the time at its beginning.
  unfoldable pub egroup_wait :
      (etimedout : ℕ)
      → (clock : ℕ → ℕ) → (lock now fuel : ℕ) → (clear_on_exit : Bool) → (timeout : ℕ) → ℕ
      → Run (Option ℕ × ℕ)
  egroup_wait etimedout clock lock now fuel clear_on_exit timeout e =
      if lock == err_none
      then and_then
          (if timeout == timeout_max
            then wait_forever fuel 0 e
            else if ltb 0 timeout
            then wait_until etimedout clock ((now + timeout) % u32_mod) fuel 0 timeout e
            else ok e)
          (λ e1. ok (some e1, leave_bits bits clear_on_exit e1))
      else ok (none, e)
