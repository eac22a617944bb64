-- ===== src/Queue/Sequence.antt =====
-- A sequence of pushes and pops that do not wait, against a bounded FIFO.
use liblsp.Prelude.{
  ℕ, ◌≡◌, refl, Option, none, some, List, [], ◌∷◌, ◌++◌, arith, length, ltb, if◌then◌else◌,
  Bool-cases, inl, inr,
}
use liblsp.Types.{err_none, err_queue_full, err_queue_empty}
use liblsp.Queue.{Queue, WaitResult, push, pop}
use liblsp.Queue.Ring.{Holds}
use liblsp.Queue.Fifo.{push_room, push_full, pop_item, pop_empty, push-queue_size, pop-queue_size}

pub data Op {ℓ} (A : Type ℓ) : Type ℓ where
  push_op : A → Op A
  pop_op : Op A

-- What the caller sees of each call.
abbrev pub Reply {ℓ} : Type ℓ → Type ℓ
Reply A = ℕ × Option A

module _ {ℓ} {A : Type ℓ} where
  -- The calls with a timeout of 0, the lock being free.
  pub run : (Queue A → WaitResult × Queue A) → Queue A → List (Op A) → List (Reply A)
  run wait q [] = []
  run wait q (push_op x ∷ ops) =
      let (rc, q') = push err_none wait q x 0 in (rc, none) ∷ run wait q' ops
  run wait q (pop_op ∷ ops) =
      let (rc, item, q') = pop err_none wait q 0 in (rc, item) ∷ run wait q' ops

  -- The same calls of a FIFO of at most `size` items.
  pub fifo : ℕ → List A → List (Op A) → List (Reply A)
  fifo size xs [] = []
  fifo size xs (push_op x ∷ ops) =
      if ltb (length xs) size
      then (err_none, none) ∷ fifo size (xs ++ x ∷ []) ops
      else (err_queue_full, none) ∷ fifo size xs ops
  fifo size [] (pop_op ∷ ops) = (err_queue_empty, none) ∷ fifo size [] ops
  fifo size (x ∷ xs) (pop_op ∷ ops) = (err_none, some x) ∷ fifo size xs ops

  -- No sequence of calls that do not wait tells a queue in order from the FIFO of its items.
  pub run-fifo :
      (wait : Queue A → WaitResult × Queue A) (ops : List (Op A)) {q : Queue A} (xs : List A)
      → Holds q xs
      → run wait q ops ≡ fifo q.queue_size xs ops
  unfolding run fifo
  run-fifo wait [] xs h = refl
  run-fifo wait (push_op x ∷ ops) {q} xs h = elim (Bool-cases (ltb (length xs) q.queue_size)) [
    | inl room ↦
        let (rc, held) = push_room wait 0 x h (ground arith) in
        rw (room, rc, run-fifo wait ops (xs ++ x ∷ []) held, push-queue_size)
    | inr full ↦
        rw (full, push_full wait x h (ground (arith, h.count, h.valid)), run-fifo wait ops xs h)
  ]
  run-fifo wait (pop_op ∷ ops) [] h = rw (pop_empty wait h, run-fifo wait ops [] h)
  run-fifo wait (pop_op ∷ ops) {q} (x ∷ xs) h =
      let (rc, item, held) = pop_item wait 0 x h in
      rw (rc, item, run-fifo wait ops xs held, pop-queue_size)
