-- ===== src/Queue/Fifo.antt =====
-- Pushes and pops that do not wait: a valid queue is a bounded FIFO.
use liblsp.Prelude.{
  ℕ, ◌+◌, ◌%◌, ◌<◌, ◌≡◌, refl, ◌∙◌, ap, none, some, List, [], ◌∷◌, ◌++◌, arith, length, length-set,
  length-append, leb, dec_int, int_to_size, is_nonpos, false, true,
}
use native.Mathlib.Nat.{mod-add-mod}
use liblsp.Types.{err_none, err_queue_full, err_queue_empty}
use liblsp.Queue.{Queue, WaitResult, enqueue, dequeue, push, pop, next_slot}
use liblsp.Queue.Ring.{Window-snoc, IsValid, Holds, round-suc}

module _ {ℓ} {A : Type ℓ} where
  -- The next slot is the next index, round at the size.
  next_slot_lem :
      {q : Queue A} (i : ℕ) → IsValid q → i < q.queue_size → next_slot q i ≡ (i + 1) % q.queue_size
  next_slot_lem {q} i v h = ground arith

  pub enqueue-Holds :
      {q : Queue A} {xs : List A} (x : A)
      → Holds q xs
      → length xs < q.queue_size
      → ((enqueue x q).0 ≡ err_none) × Holds (enqueue x q).1 (xs ++ x ∷ [])
  unfolding enqueue
  enqueue-Holds {q} {xs} x h room =
      let v = h.valid in
      (
        refl,
        record {
          valid = record {
            some_room = v.some_room;
            small = v.small;
            storage = omega (arith, length-set q.slots q.tail x);
            head_in = v.head_in;
            length_in = ground (arith, h.count);
            tail_at =
                next_slot_lem q.tail v (rw v.tail_at (omega arith))
                ∙ ap (λ t. (t + 1) % q.queue_size) v.tail_at
                ∙ mod-add-mod (q.head + q.length) q.queue_size 1
                ∙ ap (λ k. k % q.queue_size) (ground (arith, h.count));
          };
          count = ground (arith, h.count, length-append xs (x ∷ []));
          items =
              Window-snoc q.queue_size q.slots q.head q.tail xs x v.storage v.head_in room
                (v.tail_at ∙ ap (λ k. (q.head + k) % q.queue_size) h.count) h.items;
        },
      )

  pub dequeue-Holds :
      {q : Queue A} {xs : List A} (x : A)
      → Holds q (x ∷ xs)
      → ((dequeue q).0 ≡ err_none) × ((dequeue q).1 ≡ some x) × Holds (dequeue q).2 xs
  unfolding dequeue
  dequeue-Holds {q} {xs} x h =
      let v = h.valid in
      let next : next_slot q q.head ≡ (q.head + 1) % q.queue_size =
        next_slot_lem q.head v v.head_in in
      let less : dec_int q.length ≡ length xs = ground (arith, h.count) in
      (
        refl,
        h.items.0,
        record {
          valid = record {
            some_room = v.some_room;
            small = v.small;
            storage = v.storage;
            head_in = rw next (omega arith);
            length_in = omega (arith, h.count);
            tail_at =
                rw (next, less)
                  (v.tail_at
                    ∙ ap (λ k. (q.head + k) % q.queue_size) h.count
                    ∙ round-suc q.queue_size q.head (length xs));
          };
          count = less;
          items = rw next h.items.1;
        },
      )

  -- Where the lock was taken and there is room, `lsp_queue_push` puts the item at the back, whatever
  -- the timeout.
  pub push_room :
      (wait : Queue A → WaitResult × Queue A) (timeout : ℕ) {q : Queue A} {xs : List A} (x : A)
      → Holds q xs
      → length xs < q.queue_size
      → ((push err_none wait q x timeout).0 ≡ err_none)
        × Holds (push err_none wait q x timeout).1 (xs ++ x ∷ [])
  unfolding push
  push_room wait timeout {q} x h room =
      let go : leb q.queue_size (int_to_size q.length) ≡ false = ground (arith, h.count) in
      rw go (enqueue-Holds x h room)

  -- Where the lock was taken and there is an item, `lsp_queue_pop` takes the oldest one, whatever the
  -- timeout.
  pub pop_item :
      (wait : Queue A → WaitResult × Queue A) (timeout : ℕ) {q : Queue A} {xs : List A} (x : A)
      → Holds q (x ∷ xs)
      → ((pop err_none wait q timeout).0 ≡ err_none)
        × ((pop err_none wait q timeout).1 ≡ some x)
        × Holds (pop err_none wait q timeout).2 xs
  unfolding pop
  pop_item wait timeout {q} x h =
      let go : is_nonpos q.length ≡ false = ground (arith, h.count, h.valid) in
      rw go (dequeue-Holds x h)

  -- Without waiting, a push into a full queue and a pop from an empty one are refused, and change
  -- nothing.
  pub push_full :
      (wait : Queue A → WaitResult × Queue A) {q : Queue A} {xs : List A} (x : A)
      → Holds q xs
      → length xs ≡ q.queue_size
      → push err_none wait q x 0 ≡ (err_queue_full, q)
  unfolding push
  push_full wait {q} x h full =
      let go : leb q.queue_size (int_to_size q.length) ≡ true = ground (arith, h.count, h.valid) in
      rw go

  pub pop_empty :
      (wait : Queue A → WaitResult × Queue A) {q : Queue A}
      → Holds q []
      → pop err_none wait q 0 ≡ (err_queue_empty, none, q)
  unfolding pop
  pop_empty wait {q} h = let go : is_nonpos q.length ≡ true = ground (arith, h.count) in rw go

  pub push-queue_size :
      (wait : Queue A → WaitResult × Queue A) (q : Queue A) (x : A)
      → (push err_none wait q x 0).1.queue_size ≡ q.queue_size
  unfolding push enqueue
  push-queue_size wait q x = ground arith

  pub pop-queue_size :
      (wait : Queue A → WaitResult × Queue A) (q : Queue A)
      → (pop err_none wait q 0).2.queue_size ≡ q.queue_size
  unfolding pop dequeue
  pop-queue_size wait q = ground arith
