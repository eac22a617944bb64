-- ===== src/Queue/Threads/Stolen.antt =====
-- Two consumers of one queue: an item that wakes one of them and is taken by the other.
use liblsp.Prelude.{
  ℕ, ◌<◌, ◌≡◌, refl, true, false, [], ◌∷◌, arith, leb, int_to_size, is_nonpos, inc_int, dec_int,
  test_of_lt,
}
use liblsp.Types.{err_none, err_queue_full}
use liblsp.Queue.{Queue, WaitResult, woken, enqueue, dequeue, push, pop_woken}
use liblsp.Queue.Ring.{Holds}
use liblsp.Queue.Fifo.{enqueue-Holds, dequeue-Holds}
use liblsp.Queue.Wait.{Holds-waiting_empty}
use liblsp.Queue.Threads.{
  idle, popping, push_call, pop_call, wake, act, begin_push, begin_pop, System, moved, start, pick,
  Reach,
}

module _ {ℓ} {A : Type ℓ} where
  pop_waits_at :
      (timeout : ℕ) {q : Queue A}
      → Holds q []
      → 0 < timeout
      → act (pop_call timeout) q idle ≡ record {
        queue = record q { waiting_empty = inc_int q.waiting_empty };
        pc = popping;
        put = [];
        got = [];
      }
  unfolding act begin_pop
  pop_waits_at timeout {q} h time =
      let go : is_nonpos q.length ≡ true = ground (arith, h.count) in
      rw (go, test_of_lt 0 timeout time)

  push_puts :
      (x : A) (timeout : ℕ) {q : Queue A}
      → Holds q []
      → act (push_call x timeout) q idle
        ≡ record { queue = (enqueue x q).1; pc = idle; put = x ∷ []; got = [] }
  unfolding act begin_push enqueue
  push_puts x timeout {q} h =
      let go : leb q.queue_size (int_to_size q.length) ≡ false = ground (arith, h.count, h.valid) in
      rw go

  pop_takes :
      (x : A) (timeout : ℕ) {q : Queue A}
      → Holds q (x ∷ [])
      → act (pop_call timeout) q idle
        ≡ record { queue = (dequeue q).2; pc = idle; put = []; got = x ∷ [] }
  unfolding act begin_pop dequeue
  pop_takes x timeout {q} h =
      let go : is_nonpos q.length ≡ false = ground (arith, h.count, h.valid) in
      rw (go, (dequeue-Holds x h).1)

  -- The item that a woken consumer takes from an empty queue.
  abbrev pub underrun : Queue A → Queue A
  underrun q = (dequeue (record q { waiting_empty = dec_int q.waiting_empty })).2

  wake_takes : (q : Queue A) → (act (wake woken) q popping).queue ≡ underrun q
  unfolding act pop_woken
  wake_takes q = refl

  underrun-full :
      (later : Queue A → WaitResult × Queue A) (y : A) {q : Queue A}
      → Holds q []
      → push err_none later (underrun q) y 0 ≡ (err_queue_full, underrun q)
  unfolding push dequeue
  underrun-full later y {q} h =
      let full : leb q.queue_size (int_to_size (dec_int q.length)) ≡ true =
        ground (arith, h.count, h.valid) in
      rw full

  module _ (x : A) (t0 t1 t2 : ℕ) (q : Queue A) where
    -- Thread 1 waits for an item; thread 0 pushes one; thread 2 takes it; thread 1 goes on.
    abbrev pub waiting : System A
    waiting = moved 1 (start q) (act (pop_call t1) q idle)

    abbrev pub supplied : System A
    supplied = moved 0 waiting (act (push_call x t0) waiting.queue (waiting.pc 0))

    abbrev pub taken : System A
    taken = moved 2 supplied (act (pop_call t2) supplied.queue (supplied.pc 2))

    abbrev pub stolen : System A
    stolen = moved 1 taken (act (wake woken) taken.queue (taken.pc 1))

    stolen-Reach : Reach 3 q stolen
    stolen-Reach =
        Reach.next
          (Reach.next
            (Reach.next (Reach.next Reach.here (pick 1 (omega arith) (pop_call t1)))
              (pick 0 (omega arith) (push_call x t0)))
            (pick 2 (omega arith) (pop_call t2)))
          (pick 1 (omega arith) (wake woken))

    stolen-underrun :
        Holds q []
        → 0 < t1
        → (p : Queue A) × Holds p [] × (stolen.queue ≡ underrun p) × (taken.sent ≡ taken.received)
    stolen-underrun h time =
        let q1 : Queue A = record q { waiting_empty = inc_int q.waiting_empty } in
        let h1 = Holds-waiting_empty (inc_int q.waiting_empty) h in
        let (rc2, h2) = enqueue-Holds x h1 (omega (arith, h1.valid)) in
        let (rc3, item, h3) = dequeue-Holds x h2 in
        (
          (dequeue (enqueue x q1).1).2,
          h3,
          rw (pop_waits_at t1 h time, push_puts x t0 h1, pop_takes x t2 h2)
              (wake_takes (dequeue (enqueue x q1).1).2),
          rw (pop_waits_at t1 h time, push_puts x t0 h1, pop_takes x t2 h2),
        )

    -- Three threads may come to this on an empty queue in order: one waits for an item, the second pushes one,
    -- the third takes it, so that all that was sent is received, and the first one, woken, goes on. Then
    -- every push without a timeout is refused, the queue being full.
    pub stolen-full :
        (later : Queue A → WaitResult × Queue A) (y : A)
        → Holds q []
        → 0 < t1
        → Reach 3 q stolen
          × (taken.sent ≡ taken.received)
          × (push err_none later stolen.queue y 0 ≡ (err_queue_full, stolen.queue))
    stolen-full later y h time =
        let (p, held, e, all) = stolen-underrun h time in
        (stolen-Reach, all, rw e (underrun-full later y held))
