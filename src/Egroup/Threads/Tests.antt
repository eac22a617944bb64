-- ===== src/Egroup/Threads/Tests.antt =====
-- The theorems about the threads of an event group, on two threads that wait for bit 1.
use liblsp.Prelude.{arith, ◌+◌, ◌≤◌, ℕ, ◌≡◌, refl, true, false}
use liblsp.Types.{timeout_max}
use liblsp.Egroup.{met, egroup_set}
use liblsp.Egroup.Threads.Waits.{
  Want, look, start, resume, returns, waiting, Group, created, set_bits, moved, GroupReach,
  GroupStep,
}
use liblsp.Egroup.Threads.{pending}
use liblsp.Egroup.Threads.Served.{Trace, Runs, found_once}
use liblsp.Egroup.Threads.Woken.{never_asleep}

abbrev for_bit : Want
for_bit = record { bits = 2; clear_on_exit = false; wait_all = false; timeout = timeout_max }

abbrev timed : Want
timed = record { bits = 2; clear_on_exit = false; wait_all = true; timeout = 100 }

-- Thread 5 waits without a timeout, thread 6 with one; then bit 1 is set.
abbrev one_waits : Group
one_waits = moved 5 for_bit (start for_bit 0) created

abbrev both_wait : Group
both_wait = moved 6 timed (start timed 0) one_waits

abbrev bit_set : Group
bit_set = set_bits 2 both_wait

bit_set-reached : GroupReach 110 bit_set
unfolding start set_bits look met
bit_set-reached =
    GroupReach.next
      (GroupReach.next (GroupReach.next GroupReach.here (GroupStep.calls 5 for_bit refl))
        (GroupStep.calls 6 timed refl))
      (GroupStep.sets 2)

bit_set-waits : bit_set.pc 5 ≡ waiting for_bit
unfolding start set_bits look met
bit_set-waits = refl

bit_set-met : met false 2 bit_set.event_bits ≡ true
unfolding start set_bits look met egroup_set
bit_set-met = refl

never_asleep_example :
    (bit_set.signalled 5 ≡ true)
    × ((remaining : ℕ)
        → resume for_bit 110 0 remaining bit_set.event_bits ≡ returns for_bit bit_set.event_bits)
never_asleep_example = never_asleep 110 bit_set-reached 5 for_bit bit_set-waits refl bit_set-met

-- Thread 5 goes on after the signal, and finds bit 1.
abbrev served : Group
served = moved 5 for_bit (resume for_bit 110 0 0 bit_set.event_bits) bit_set

served-reached : Trace 110 false 2 1 1 served
unfolding start set_bits look met egroup_set resume
served-reached =
    Trace.finds 5 for_bit _
      (Trace.sets_some 2
        (Trace.runs 6 timed _ (Trace.runs 5 for_bit _ Trace.begun (Runs.begins refl))
          (Runs.begins refl))
        (omega arith))
      (Runs.goes_on 0 0 refl) refl refl refl

found_once_example : 1 + pending (met false 2 served.event_bits) ≤ 1
found_once_example = found_once 110 false 2 (omega arith) (omega arith) served-reached
