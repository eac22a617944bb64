-- ===== src/Queue/Tests.antt =====
-- The theorems about queues, on one of capacity 3 whose items go round the end of the block.
use liblsp.Prelude.{
  get_elem?, ℕ, ◌+◌, ◌*◌, ◌≤◌, ◌≡◌, refl, true, some, [], ◌∷◌, Ptr, pos, arith, leb, if◌then◌else◌,
  List,
}
use liblsp.Types.{aligned_size, err_none}
use liblsp.Time.{Timespec}
use liblsp.Queue.{
  Queue, WaitResult, woken, timed_out, failed, push, pop, enqueue, create, entry_find,
}
use liblsp.Queue.Ring.{IsValid, Holds}
use liblsp.Queue.Fifo.{push_room, pop_item}
use liblsp.Queue.Wait.{push_waits, pop_waits, push_overrun}
use liblsp.Queue.Create.{create-Holds, entries_apart}
use liblsp.Queue.Sequence.{Op, push_op, pop_op, run, fifo, run-fifo}

-- 8, then 9, with one slot free.
abbrev wrapped : Queue ℕ
wrapped = record {
  length = 2;
  head = 2;
  tail = 1;
  waiting_full = 0;
  waiting_empty = 0;
  queue_size = 3;
  itemsize = 8;
  slots = 9 ∷ 7 ∷ 8 ∷ [];
}

abbrev full_queue : Queue ℕ
full_queue = record wrapped { length = 3; tail = 2 }

abbrev empty_queue : Queue ℕ
empty_queue = record wrapped { length = 0; tail = 2 }

wrapped-Holds : Holds wrapped (8 ∷ 9 ∷ [])
wrapped-Holds = record { valid = omega arith; count = refl; items = (refl, (refl, tt)) }

full-Holds : Holds full_queue (8 ∷ 9 ∷ 7 ∷ [])
full-Holds = record { valid = omega arith; count = refl; items = (refl, (refl, (refl, tt))) }

empty-Holds : Holds empty_queue []
empty-Holds = record { valid = omega arith; count = refl; items = tt }

abbrev no_wait : Queue ℕ → WaitResult × Queue ℕ
no_wait q = (failed, q)

-- A wait that ends with room, with an item, or early.
abbrev till_room : Queue ℕ → WaitResult × Queue ℕ
till_room q = (woken, wrapped)

abbrev early : Queue ℕ → WaitResult × Queue ℕ
early q = (woken, q)

abbrev script : List (Op ℕ)
script = push_op 1 ∷ push_op 2 ∷ pop_op ∷ pop_op ∷ pop_op ∷ pop_op ∷ []

push_wraps :
    push err_none no_wait wrapped 1 0
    ≡ (err_none, record wrapped { length = 3; tail = 2; slots = 9 ∷ 1 ∷ 8 ∷ [] })
unfolding push enqueue
push_wraps = refl

run-fifo_example : run no_wait wrapped script ≡ fifo 3 (8 ∷ 9 ∷ []) script
run-fifo_example = run-fifo no_wait script (8 ∷ 9 ∷ []) wrapped-Holds

push_room_example :
    ((push err_none no_wait wrapped 1 100).0 ≡ err_none)
    × Holds (push err_none no_wait wrapped 1 100).1 (8 ∷ 9 ∷ 1 ∷ [])
push_room_example = push_room no_wait 100 1 wrapped-Holds (omega arith)

pop_item_example :
    ((pop err_none no_wait wrapped 100).0 ≡ err_none)
    × ((pop err_none no_wait wrapped 100).1 ≡ some 8)
    × Holds (pop err_none no_wait wrapped 100).2 (9 ∷ [])
pop_item_example = pop_item no_wait 100 8 wrapped-Holds

push_waits_example :
    ((push err_none till_room full_queue 1 100).0 ≡ err_none)
    × Holds (push err_none till_room full_queue 1 100).1 (8 ∷ 9 ∷ 1 ∷ [])
push_waits_example =
    push_waits till_room 100 1 full-Holds refl (omega arith) woken refl wrapped-Holds
      (λ e. omega arith)

pop_waits_example :
    ((pop err_none till_room empty_queue 100).0 ≡ err_none)
    × ((pop err_none till_room empty_queue 100).1 ≡ some 8)
    × Holds (pop err_none till_room empty_queue 100).2 (9 ∷ [])
pop_waits_example = pop_waits till_room 100 empty-Holds (omega arith) woken 8 refl wrapped-Holds

still_full-Holds : Holds (record full_queue { waiting_full = 1 }) (8 ∷ 9 ∷ 7 ∷ [])
still_full-Holds = record { valid = omega arith; count = refl; items = (refl, (refl, (refl, tt))) }

-- A wake-up for no reason.
abbrev spurious : Queue ℕ → WaitResult × Queue ℕ
spurious q = (woken, q)

push_overrun_example :
    let after = push err_none spurious full_queue 1 100 in
    (after.0 ≡ err_none) × (get_elem? after.1.slots full_queue.head ≡ some 1) × (¬ IsValid after.1)
push_overrun_example =
    push_overrun spurious 100 1 full-Holds refl (omega arith) refl still_full-Holds refl

abbrev some_memory : ℕ → Ptr
some_memory n = 4096

create-Holds_example :
    (q : Queue ℕ) × (create 184 some_memory true 0 (pos 4) 8 ≡ some q)
    × Holds q []
    × (q.queue_size ≡ 4)
    × (q.itemsize ≡ 8)
    × (q.waiting_full ≡ 0)
    × (q.waiting_empty ≡ 0)
unfolding aligned_size
create-Holds_example =
    create-Holds 184 some_memory 0 4 8 (omega arith) (omega arith) (omega arith) (omega arith)
      (omega arith)

entries_apart_example : (entry_find 1 8 + 8 ≤ entry_find 2 8) × (entry_find 2 8 + 8 ≤ 3 * 8)
entries_apart_example = entries_apart 3 8 1 2 (omega arith) (omega arith)

-- A wait that refuses a time with a second or more in its nanoseconds, and ends late otherwise.
abbrev strict_wait : Timespec → WaitResult
strict_wait ts = if leb 1000000000 ts.nsec then failed else timed_out

refuses : (ts : Timespec) → 1000000000 ≤ ts.nsec → strict_wait ts ≡ failed
refuses ts h = ground arith

abbrev half_past : Timespec
half_past = record { sec = 7; nsec = 500000000 }
