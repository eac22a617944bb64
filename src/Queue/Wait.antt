-- ===== src/Queue/Wait.antt =====
-- Pushes and pops that wait: what they do when the wait ends, and what an early wake-up does.
use liblsp.Prelude.{
  ℕ, ◌+◌, ◌%◌, ◌<◌, ◌≡◌, refl, ◌∙◌, Option, none, some, List, [], ◌∷◌, ◌++◌, arith, length, leb,
  test_of_lt, inc_int, dec_int, int_to_size, is_nonpos, true, get_elem?, get_elem?-set_self,
}
use liblsp.Types.{err_none, err_timeout, err_invalid, err_queue_full}
use liblsp.Queue.{
  Queue, WaitResult, woken, timed_out, failed, enqueue, dequeue, push_woken, pop_woken, push, pop,
}
use liblsp.Queue.Ring.{IsValid, Holds}
use liblsp.Queue.Fifo.{enqueue-Holds, dequeue-Holds}

round_whole : (h n size : ℕ) → h < size → n ≡ size → (h + n) % size ≡ h
round_whole h n size hh e = grind arith

-- The result of a call by how its wait ended: LSP_ERR_NONE, LSP_ERR_TIMEOUT or LSP_ERR_INVALID.
abbrev pub wait_code : WaitResult → ℕ
wait_code woken = err_none
wait_code timed_out = err_timeout
wait_code failed = err_invalid

module _ {ℓ} {A : Type ℓ} where
  -- The counters of the waiting threads are no part of what a queue holds.
  pub Holds-waiting_full :
      {q : Queue A} {xs : List A} (w : ℕ) → Holds q xs → Holds (record q { waiting_full = w }) xs
  Holds-waiting_full w h = record {
    valid = record {
      some_room = h.valid.some_room;
      small = h.valid.small;
      storage = h.valid.storage;
      head_in = h.valid.head_in;
      length_in = h.valid.length_in;
      tail_at = h.valid.tail_at;
    };
    count = h.count;
    items = h.items;
  }

  pub Holds-waiting_empty :
      {q : Queue A} {xs : List A} (w : ℕ) → Holds q xs → Holds (record q { waiting_empty = w }) xs
  Holds-waiting_empty w h = record {
    valid = record {
      some_room = h.valid.some_room;
      small = h.valid.small;
      storage = h.valid.storage;
      head_in = h.valid.head_in;
      length_in = h.valid.length_in;
      tail_at = h.valid.tail_at;
    };
    count = h.count;
    items = h.items;
  }

  -- The items that a push leaves, of those it found when its wait ended.
  abbrev pub left_by_push : WaitResult → List A → A → List A
  left_by_push woken ys x = ys ++ x ∷ []
  left_by_push w ys x = ys

  push_woken-Holds :
      (w : WaitResult) {q : Queue A} {ys : List A} (x : A)
      → Holds q ys
      → (w ≡ woken → length ys < q.queue_size)
      → ((push_woken x (w, q)).0 ≡ wait_code w)
        × Holds (push_woken x (w, q)).1 (left_by_push w ys x)
  unfolding push_woken
  push_woken-Holds woken {q} x h room =
      enqueue-Holds x (Holds-waiting_full (dec_int q.waiting_full) h) (room refl)
  push_woken-Holds timed_out {q} x h room = (refl, Holds-waiting_full (dec_int q.waiting_full) h)
  push_woken-Holds failed {q} x h room = (refl, Holds-waiting_full (dec_int q.waiting_full) h)

  -- What a pop stores, and the items that it leaves, of `y` and `ys` when its wait ended.
  abbrev pub taken : WaitResult → A → Option A
  taken woken y = some y
  taken w y = none

  abbrev pub left_by_pop : WaitResult → A → List A → List A
  left_by_pop woken y ys = ys
  left_by_pop w y ys = y ∷ ys

  pop_woken-Holds :
      (w : WaitResult) {q : Queue A} (y : A) {ys : List A}
      → Holds q (y ∷ ys)
      → ((pop_woken (w, q)).0 ≡ wait_code w)
        × ((pop_woken (w, q)).1 ≡ taken w y)
        × Holds (pop_woken (w, q)).2 (left_by_pop w y ys)
  unfolding pop_woken
  pop_woken-Holds woken {q} y h = dequeue-Holds y (Holds-waiting_empty (dec_int q.waiting_empty) h)
  pop_woken-Holds timed_out {q} y h = (refl, refl, Holds-waiting_empty (dec_int q.waiting_empty) h)
  pop_woken-Holds failed {q} y h = (refl, refl, Holds-waiting_empty (dec_int q.waiting_empty) h)

  -- A push with a timeout into a full queue waits. When the wait ends with the items `ys` in the queue,
  -- and with room for one more if it was woken, the item is put behind them and the push succeeds if it
  -- was woken; else they stay, and it gives LSP_ERR_TIMEOUT if the wait timed out and LSP_ERR_INVALID on
  -- another error of the wait.
  pub push_waits :
      (wait : Queue A → WaitResult × Queue A) (timeout : ℕ) {q : Queue A} {xs : List A} (x : A)
      → Holds q xs
      → length xs ≡ q.queue_size
      → 0 < timeout
      → (w : WaitResult) {p : Queue A} {ys : List A}
      → wait (record q { waiting_full = inc_int q.waiting_full }) ≡ (w, p)
      → Holds p ys
      → (w ≡ woken → length ys < p.queue_size)
      → ((push err_none wait q x timeout).0 ≡ wait_code w)
        × Holds (push err_none wait q x timeout).1 (left_by_push w ys x)
  unfolding push
  push_waits wait timeout {q} x h full time w e held room =
      let go : leb q.queue_size (int_to_size q.length) ≡ true = ground (arith, h.count, h.valid) in
      rw (go, test_of_lt 0 timeout time, e) (push_woken-Holds w x held room)

  -- A pop with a timeout from an empty queue waits. When the wait ends with an item in the queue, the
  -- oldest one is taken if the pop was woken; else none is taken, and it gives LSP_ERR_TIMEOUT if the wait
  -- timed out and LSP_ERR_INVALID on another error of the wait.
  pub pop_waits :
      (wait : Queue A → WaitResult × Queue A) (timeout : ℕ) {q : Queue A}
      → Holds q []
      → 0 < timeout
      → (w : WaitResult) {p : Queue A} (y : A) {ys : List A}
      → wait (record q { waiting_empty = inc_int q.waiting_empty }) ≡ (w, p)
      → Holds p (y ∷ ys)
      → ((pop err_none wait q timeout).0 ≡ wait_code w)
        × ((pop err_none wait q timeout).1 ≡ (taken w y))
        × Holds (pop err_none wait q timeout).2 (left_by_pop w y ys)
  unfolding pop
  pop_waits wait timeout {q} h time w {p} y e held =
      let go : is_nonpos q.length ≡ true = ground (arith, h.count) in
      rw (go, test_of_lt 0 timeout time, e) (pop_woken-Holds w y held)

  -- A push that waits on a full queue and is woken while the queue is still full reports success, writes
  -- over the oldest item, and leaves the queue out of order.
  pub push_overrun :
      (wait : Queue A → WaitResult × Queue A) (timeout : ℕ) {q p : Queue A} {xs ys : List A} (x : A)
      → Holds q xs
      → length xs ≡ q.queue_size
      → 0 < timeout
      → wait (record q { waiting_full = inc_int q.waiting_full }) ≡ (woken, p)
      → Holds p ys
      → length ys ≡ p.queue_size
      → ((push err_none wait q x timeout).0 ≡ err_none)
        × (get_elem? (push err_none wait q x timeout).1.slots p.head ≡ some x)
        × (¬ IsValid (push err_none wait q x timeout).1)
  unfolding push push_woken enqueue
  push_overrun wait timeout {q} {p} x h full time e held still =
      let go : leb q.queue_size (int_to_size q.length) ≡ true = ground (arith, h.count, h.valid) in
      rw (go, test_of_lt 0 timeout time, e)
        (
          refl,
          let at : p.tail ≡ p.head =
                held.valid.tail_at
                ∙ round_whole p.head p.length p.queue_size held.valid.head_in
                    (held.count ∙ still) in
              rw at (get_elem?-set_self p.slots p.head x (omega (arith, held.valid))),
          λ bad. ground (arith, bad.length_in, held.count, held.valid),
        )

  -- A pop that waits on an empty queue and is woken while the queue is still empty reports success, and
  -- the next push without a timeout is refused: it finds the queue full.
  pub pop_underrun :
      (wait later : Queue A → WaitResult × Queue A) (timeout : ℕ) {q p : Queue A} (y : A)
      → Holds q []
      → 0 < timeout
      → wait (record q { waiting_empty = inc_int q.waiting_empty }) ≡ (woken, p)
      → Holds p []
      → let r = pop err_none wait q timeout in
        (r.0 ≡ err_none) × (push err_none later r.2 y 0 ≡ (err_queue_full, r.2))
  unfolding pop push pop_woken dequeue
  pop_underrun wait later timeout {q} {p} y h time e held =
      let go : is_nonpos q.length ≡ true = ground (arith, h.count) in
      rw (go, test_of_lt 0 timeout time, e)
        (
          refl,
          let full : leb p.queue_size (int_to_size (dec_int p.length)) ≡ true =
                ground (arith, held.count, held.valid) in
              rw full,
        )
