-- ===== src/Queue/Threads/Order.antt =====
-- The order of the items between several threads.
use liblsp.Prelude.{
  ℕ, ◌<◌, ◌≡◌, refl, ap, sym, ◌∙◌, true, false, Bool-cases, inl, inr, List, [], ◌∷◌, ◌++◌,
  append_assoc, append-nil, arith, ltb, leb, int_to_size, is_nonpos, length,
}
use liblsp.Queue.{
  Queue, WaitResult, woken, timed_out, failed, enqueue, dequeue, push_woken, pop_woken,
}
use liblsp.Queue.Ring.{Holds}
use liblsp.Queue.Fifo.{enqueue-Holds, dequeue-Holds}
use liblsp.Queue.Wait.{Holds-waiting_full, Holds-waiting_empty}
use liblsp.Queue.Threads.{
  Pc, idle, pushing, popping, Action, push_call, pop_call, wake, Outcome, act, begin_push,
  begin_pop, System, moved, start, pushed, popped,
}

module _ {ℓ} {A : Type ℓ} where
  -- A thread that waits to push is woken only while there is room, and one that waits to pop only while there
  -- is an item.
  abbrev pub InTime : Action A → Queue A → Pc A → Type 0
  InTime (wake woken) q (pushing x) = q.length < q.queue_size
  InTime (wake woken) q popping = 0 < q.length
  InTime a q p = Unit

  -- The queue is in order after an action, and what was put in went to the back, what was taken out came
  -- from the front.
  abbrev pub Keeps : List A → Queue A → Outcome A → Type ℓ
  Keeps xs q o =
      (ys : List A) × Holds o.queue ys
      × (xs ++ o.put ≡ o.got ++ ys)
      × (o.queue.queue_size ≡ q.queue_size)

  -- `enqueue` and `dequeue` as outcomes.
  enqueue-Keeps :
      {q : Queue A} (xs : List A) (x : A)
      → Holds q xs
      → length xs < q.queue_size
      → Keeps xs q (pushed x (enqueue x q))
  unfolding enqueue
  enqueue-Keeps {q} xs x h room = (xs ++ x ∷ [], (enqueue-Holds x h room).1, refl, refl)

  dequeue-Keeps :
      {q : Queue A} (x : A) (xs : List A) → Holds q (x ∷ xs) → Keeps (x ∷ xs) q (popped (dequeue q))
  unfolding dequeue
  dequeue-Keeps {q} x xs h =
      let (rc, item, held) = dequeue-Holds x h in (xs, held, rw item (append-nil (x ∷ xs)), refl)

  -- Nothing was put in, nothing taken out.
  rests :
      (q : Queue A) {p : Queue A} {xs : List A} (pc : Pc A)
      → Holds p xs
      → p.queue_size ≡ q.queue_size
      → Keeps xs q (record { queue = p; pc = pc; put = []; got = [] })
  rests q {p} {xs} pc h size = (xs, h, append-nil xs, size)

  push-Keeps :
      {q : Queue A} (xs : List A) (x : A) (timeout : ℕ)
      → Holds q xs
      → Keeps xs q (act (push_call x timeout) q idle)
  unfolding act begin_push
  push-Keeps {q} xs x timeout h = elim (Bool-cases (leb q.queue_size (int_to_size q.length))) [
    | inr room ↦ rw room (enqueue-Keeps xs x h (ground (arith, h.count, h.valid)))
    | inl full ↦ elim (Bool-cases (ltb 0 timeout)) [
      | inl time ↦ rw (full, time) (rests q (pushing x) (Holds-waiting_full _ h) refl)
      | inr no_time ↦ rw (full, no_time) (rests q idle h refl)
    ]
  ]

  pop-Keeps :
      {q : Queue A} (xs : List A) (timeout : ℕ)
      → Holds q xs
      → Keeps xs q (act (pop_call timeout) q idle)
  unfolding act begin_pop
  pop-Keeps {q} (x ∷ xs) timeout h =
      let item : is_nonpos q.length ≡ false = ground (arith, h.count, h.valid) in
      rw item (dequeue-Keeps x xs h)
  pop-Keeps {q} [] timeout h =
      let empty : is_nonpos q.length ≡ true = ground (arith, h.count) in
      elim (Bool-cases (ltb 0 timeout)) [
        | inl time ↦ rw (empty, time) (rests q popping (Holds-waiting_empty _ h) refl)
        | inr no_time ↦ rw (empty, no_time) (rests q idle h refl)
      ]

  wake_push-Keeps :
      {q : Queue A} (xs : List A) (x : A) (w : WaitResult)
      → Holds q xs
      → InTime (wake w) q (pushing x)
      → Keeps xs q (act (wake w) q (pushing x))
  unfolding act push_woken
  wake_push-Keeps {q} xs x woken h room =
      enqueue-Keeps xs x (Holds-waiting_full _ h) (omega (arith, h.count, room))
  wake_push-Keeps {q} xs x timed_out h room = rests q idle (Holds-waiting_full _ h) refl
  wake_push-Keeps {q} xs x failed h room = rests q idle (Holds-waiting_full _ h) refl

  wake_pop-Keeps :
      {q : Queue A} (xs : List A) (w : WaitResult)
      → Holds q xs
      → InTime (wake w) q popping
      → Keeps xs q (act (wake w) q popping)
  unfolding act pop_woken
  wake_pop-Keeps [] woken h item = absurd (omega (arith, h.count, item))
  wake_pop-Keeps {q} (x ∷ xs) woken h item = dequeue-Keeps x xs (Holds-waiting_empty _ h)
  wake_pop-Keeps {q} xs timed_out h item = rests q idle (Holds-waiting_empty _ h) refl
  wake_pop-Keeps {q} xs failed h item = rests q idle (Holds-waiting_empty _ h) refl

  pub act-Keeps :
      (a : Action A) {q : Queue A} (p : Pc A) (xs : List A)
      → Holds q xs
      → InTime a q p
      → Keeps xs q (act a q p)
  unfolding act
  act-Keeps (push_call x t) {q} idle xs h ok = push-Keeps xs x t h
  act-Keeps (pop_call t) {q} idle xs h ok = pop-Keeps xs t h
  act-Keeps (wake w) {q} (pushing x) xs h ok = wake_push-Keeps xs x w h ok
  act-Keeps (wake w) {q} popping xs h ok = wake_pop-Keeps xs w h ok
  act-Keeps (push_call x t) {q} (pushing y) xs h ok = rests q (pushing y) h refl
  act-Keeps (push_call x t) {q} popping xs h ok = rests q popping h refl
  act-Keeps (pop_call t) {q} (pushing y) xs h ok = rests q (pushing y) h refl
  act-Keeps (pop_call t) {q} popping xs h ok = rests q popping h refl
  act-Keeps (wake w) {q} idle xs h ok = rests q idle h refl

-- The steps of `n` threads of which none is woken too early.
pub data Orderly {ℓ} {A : Type ℓ} (n : ℕ) (q : Queue A) : System A → Type ℓ where
  here : Orderly n q (start q)
  next :
      {s : System A} (i : ℕ)
      → i < n
      → (a : Action A) → InTime a s.queue (s.pc i)
      → Orderly n q s
      → Orderly n q (moved i s (act a s.queue (s.pc i)))

module _ {ℓ} {A : Type ℓ} where
  -- In whatever order the threads call, wait and are woken, if none is woken to push while the queue is full,
  -- or to pop while it is empty: what was taken out so far, and then what the queue holds, is what was
  -- put in, in that order.
  pub Orderly-fifo :
      {n : ℕ} {q : Queue A} {s : System A}
      → Holds q []
      → Orderly n q s
      → (xs : List A) × Holds s.queue xs × (s.sent ≡ s.received ++ xs)
  Orderly-fifo empty here = ([], empty, refl)
  Orderly-fifo empty (next {s} i lt a in_time r) =
      let (xs, held, sent) = Orderly-fifo empty r in
      let (ys, held1, moves, size) = act-Keeps a (s.pc i) xs held in_time in
      (
        ys,
        held1,
        ap (λ l. l ++ (act a s.queue (s.pc i)).put) sent
            ∙ append_assoc s.received xs _
            ∙ ap (λ l. s.received ++ l) moves
            ∙ sym (append_assoc s.received _ ys),
      )
