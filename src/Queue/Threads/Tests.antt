-- ===== src/Queue/Threads/Tests.antt =====
-- The theorems about several threads, on a queue for two.
use liblsp.Prelude.{
  ℕ, ◌<◌, ◌≡◌, ◌⊎◌, refl, true, none, some, List, [], ◌∷◌, ◌++◌, arith, if◌then◌else◌,
}
use liblsp.Types.{err_none, err_queue_full, err_resource_in_use}
use liblsp.Queue.{push, Queue, woken, enqueue, destroy, clear}
use liblsp.Queue.Ring.{Holds}
use liblsp.Queue.Threads.{
  System, idle, push_call, pop_call, wake, act, begin_push, begin_pop, moved, start, pick, Reach,
}
use liblsp.Queue.Threads.Counters.{nobody_waits, emptied, destroy-nobody_waits}
use liblsp.Queue.Threads.Order.{Orderly, Orderly-fifo}
use liblsp.Queue.Threads.Stolen.{taken, stolen, stolen-full}
use liblsp.Queue.Threads.Pair.{Pair, pair, produce, consume, PairReach, push_runs, pop_runs}
use liblsp.Queue.Threads.Pair.Outcomes.{IsPair}
use liblsp.Queue.Threads.Pair.Safety.{PairReach-IsPair, never_stuck}

abbrev empty_queue : Queue ℕ
empty_queue = record {
  length = 0;
  head = 0;
  tail = 0;
  waiting_full = 0;
  waiting_empty = 0;
  queue_size = 2;
  itemsize = 8;
  slots = 0 ∷ 0 ∷ [];
}

empty-Holds : Holds empty_queue []
empty-Holds = record {
  valid = record {
    some_room = omega arith;
    small = omega arith;
    storage = omega arith;
    head_in = omega arith;
    length_in = omega arith;
    tail_at = refl;
  };
  count = refl;
  items = tt;
}

-- Thread 1 waits for an item.
abbrev one_waits : System ℕ
one_waits = moved 1 (start empty_queue) (act (pop_call 5) empty_queue idle)

one_waits-Reach : Reach 2 empty_queue one_waits
one_waits-Reach = Reach.next Reach.here (pick 1 (omega arith) (pop_call 5))

destroy-nobody_waits_example :
    (destroy one_waits.queue ≡ (
      if nobody_waits 2 one_waits then none else some err_resource_in_use,
      nobody_waits 2 one_waits,
    ))
    × (clear one_waits.queue ≡ (
        if nobody_waits 2 one_waits
        then (err_none, emptied one_waits.queue)
        else (err_resource_in_use, one_waits.queue)))
destroy-nobody_waits_example = destroy-nobody_waits (omega arith) refl refl one_waits-Reach

-- Then thread 0 pushes 7, and thread 1 is woken.
abbrev then_pushed : System ℕ
then_pushed = moved 0 one_waits (act (push_call 7 0) one_waits.queue (one_waits.pc 0))

abbrev then_popped : System ℕ
then_popped = moved 1 then_pushed (act (wake woken) then_pushed.queue (then_pushed.pc 1))

then_popped-Orderly : Orderly 2 empty_queue then_popped
unfolding act begin_push begin_pop enqueue
then_popped-Orderly = Orderly.next 1 (omega arith) (wake woken) (omega arith) (
    Orderly.next 0 (omega arith) (push_call 7 0) tt
      (Orderly.next 1 (omega arith) (pop_call 5) tt Orderly.here))

Orderly-fifo_example :
    (xs : List ℕ) × Holds then_popped.queue xs × (then_popped.sent ≡ then_popped.received ++ xs)
Orderly-fifo_example = Orderly-fifo empty-Holds then_popped-Orderly

-- A pair of threads of which the consumer waits and is then signalled.
abbrev waiting_pair : Pair ℕ
waiting_pair = consume (pair empty_queue) (act (pop_call 5) empty_queue idle)

abbrev signalled_pair : Pair ℕ
signalled_pair = produce waiting_pair (act (push_call 7 0) waiting_pair.queue idle)

signalled-PairReach : PairReach empty_queue signalled_pair
signalled-PairReach =
    PairReach.next (PairReach.next PairReach.here (pop_runs 5 refl)) (push_runs 7 0 refl)

PairReach-IsPair_example : (xs : List ℕ) × IsPair signalled_pair xs
PairReach-IsPair_example = PairReach-IsPair empty-Holds signalled-PairReach

-- The producer goes on until it waits too.
abbrev full_pair : Pair ℕ
full_pair = produce signalled_pair (act (push_call 8 0) signalled_pair.queue idle)

abbrev both_wait : Pair ℕ
both_wait = produce full_pair (act (push_call 9 5) full_pair.queue idle)

both_wait-PairReach : PairReach empty_queue both_wait
unfolding act begin_push begin_pop enqueue
both_wait-PairReach =
    PairReach.next (PairReach.next signalled-PairReach (push_runs 8 0 refl)) (push_runs 9 5 refl)

never_stuck_example :
    ((both_wait.room_signal ≡ true) × (both_wait.queue.length < both_wait.queue.queue_size))
    ⊎ ((both_wait.item_signal ≡ true) × (0 < both_wait.queue.length))
unfolding act begin_push begin_pop enqueue
never_stuck_example = never_stuck 9 empty-Holds both_wait-PairReach refl refl

stolen-full_example :
    Reach 3 empty_queue (stolen 7 0 5 0 empty_queue)
    × ((taken 7 0 5 0 empty_queue).sent ≡ (taken 7 0 5 0 empty_queue).received)
    × (push err_none (λ q. (woken, q)) (stolen 7 0 5 0 empty_queue).queue 8 0
        ≡ (err_queue_full, (stolen 7 0 5 0 empty_queue).queue))
stolen-full_example = stolen-full 7 0 5 0 empty_queue (λ q. (woken, q)) 8 empty-Holds (omega arith)
