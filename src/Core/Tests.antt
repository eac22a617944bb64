-- ===== src/Core/Tests.antt =====
-- The theorems about the core task, on queues for 32 events and for two.
use liblsp.Prelude.{ℕ, ◌≡◌, ◌≢◌, refl, true, false, some, List, [], ◌∷◌, arith, Ptr, ok, fault}
use liblsp.Types.{aligned_size, err, err_none, err_queue_full}
use liblsp.Queue.{Queue, WaitResult, timed_out, woken, pop_woken, push, enqueue, dequeue}
use liblsp.Queue.Ring.{Holds}
use liblsp.Core.{CoreEvent, core_start, core_sendevent, core_turns, next_sleep, next_event}
use liblsp.Queue.Threads.{idle, begin_pop}
use liblsp.Core.Threads.{
  Tasks, sent, turn_ends, turn_begins, on_queue, CoreReach, begins, sends, resumes,
}
use liblsp.Core.Threads.Running.{IsRunning, CoreReach-IsRunning}
use liblsp.Core.Deliver.{in_use, send_all, core_turns-sent}
use liblsp.Core.Start.{unattended, left_behind, in_first_wait, core_start-race}

abbrev no_such : CoreEvent
no_such = record { ev = 0; event_data = 0 }

abbrev received : Ptr → CoreEvent
received p = record { ev = 1; event_data = p }

abbrev quiet : Queue CoreEvent → WaitResult × Queue CoreEvent
quiet q = (timed_out, q)

abbrev some_memory : ℕ → Ptr
some_memory n = 4096

abbrev for_two : Queue CoreEvent
for_two = record {
  length = 0;
  head = 1;
  tail = 1;
  waiting_full = 0;
  waiting_empty = 0;
  queue_size = 2;
  itemsize = 16;
  slots = no_such ∷ no_such ∷ [];
}

for_two-Holds : Holds for_two []
for_two-Holds = record {
  valid = record {
    some_room = omega arith;
    small = omega arith;
    storage = omega arith;
    head_in = omega arith;
    length_in = omega arith;
    tail_at = refl;
  };
  count = refl;
  items = tt;
}

core_turns-sent_example :
    (q' p : Queue CoreEvent) × (send_all quiet
        (received 8 ∷ received 9 ∷ received 10 ∷ [])
        (in_use for_two)
      ≡ ok (err_none ∷ err_none ∷ err_queue_full ∷ [], in_use q'))
    × (core_turns 0 err_none quiet 2 no_such q' ≡ some (received 8 ∷ received 9 ∷ [], p))
    × Holds p []
core_turns-sent_example =
    core_turns-sent quiet 0 no_such (received 8 ∷ received 9 ∷ received 10 ∷ []) for_two-Holds

core_start-race_example :
    (q : Queue CoreEvent) × Holds q []
    × (unattended q ≡ true)
    × ((meanwhile : Queue CoreEvent → Queue CoreEvent)
        → core_start 184 some_memory true no_such 16 0 meanwhile
          ≡ (some err_none, left_behind (meanwhile q)))
    × ((p : Queue CoreEvent) (wait : Queue CoreEvent → WaitResult × Queue CoreEvent) (lock ev : ℕ)
          (event_data : Ptr)
        → unattended p ≡ true
        → core_sendevent lock wait (left_behind p) ev event_data ≡ fault)
    × Holds (in_first_wait q) []
    × (left_behind (in_first_wait q) ≡ in_use (in_first_wait q))
    × ((pthread_create : ℕ) (meanwhile : Queue CoreEvent → Queue CoreEvent)
        → pthread_create ≢ 0
        → core_start 184 some_memory true no_such 16 pthread_create meanwhile
          ≡ (some err, record { evqueue = some q; freed = true }))
unfolding aligned_size
core_start-race_example =
    core_start-race 184 some_memory no_such 16 (omega arith) (omega arith) (omega arith)

-- The task waits, an event comes, and the task goes on.
abbrev in_loop : Tasks
in_loop = record {
  core = in_use for_two;
  task = idle;
  signalled = false;
  event = some no_such;
  faulted = false;
  accepted = [];
  handled = [];
}

in_loop-IsRunning : IsRunning in_loop for_two []
in_loop-IsRunning = record {
  in_queue = refl;
  held = for_two-Holds;
  order = refl;
  fits = refl;
  known = (no_such, refl);
  no_fault = refl;
}

abbrev asleep : Tasks
asleep = on_queue in_loop (λ q. turn_begins 0 in_loop (begin_pop q next_sleep))

abbrev told : Tasks
told = sent asleep (received 8) (core_sendevent err_none quiet asleep.core 1 8)

abbrev awake : Tasks
awake = on_queue told (λ q. turn_ends 0 told (pop_woken (woken, q)))

awake-CoreReach : CoreReach 0 in_loop awake
unfolding turn_begins begin_pop sent core_sendevent push enqueue
awake-CoreReach =
    CoreReach.next
      (CoreReach.next (CoreReach.next CoreReach.here (begins refl)) (sends quiet (received 8)))
      (resumes woken refl refl)

CoreReach-IsRunning_example : (p : Queue CoreEvent) × (xs : List CoreEvent) × IsRunning awake p xs
CoreReach-IsRunning_example = CoreReach-IsRunning 0 in_loop-IsRunning awake-CoreReach

awake_handled : awake.handled ≡ received 8 ∷ []
unfolding turn_begins begin_pop sent core_sendevent push enqueue turn_ends pop_woken next_event
    dequeue
awake_handled = refl
