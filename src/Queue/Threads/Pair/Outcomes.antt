-- ===== src/Queue/Threads/Pair/Outcomes.antt =====
-- What the steps of a pair of threads come to, of a queue in order.
use liblsp.Prelude.{
  ℕ, suc, ◌≤◌, ◌<◌, ◌≡◌, refl, Bool, true, false, Bool-cases, inl, inr, List, [], ◌∷◌, ◌++◌, arith,
  length, ltb, leb, int_to_size, dec_int, inc_int, is_nonpos, ◌⊎◌,
}
use liblsp.Queue.Fifo.{enqueue-Holds, dequeue-Holds}
use liblsp.Queue.Wait.{Holds-waiting_full, Holds-waiting_empty}
use liblsp.Queue.{
  Queue, WaitResult, woken, timed_out, failed, enqueue, dequeue, push_woken, pop_woken,
}
use liblsp.Queue.Ring.{Holds}
use liblsp.Queue.Threads.{
  Pc, idle, pushing, popping, push_call, pop_call, wake, Outcome, act, begin_push, begin_pop,
}
use liblsp.Queue.Threads.Pair.{Pair, signal, Agrees, waits_for_item, waits_for_room}

module _ {ℓ} {A : Type ℓ} where
  -- Where the producer is, against the items of the queue: it waits without a signal only at a full queue,
  -- and with one only at a queue with room.
  abbrev pub ProducerFits : Pc A → Bool → ℕ → ℕ → Type 0
  ProducerFits idle signalled held size = signalled ≡ false
  ProducerFits (pushing x) true held size = held < size
  ProducerFits (pushing x) false held size = held ≡ size
  ProducerFits popping signalled held size = ⊥

  abbrev pub ConsumerFits : Pc A → Bool → ℕ → Type 0
  ConsumerFits idle signalled held = signalled ≡ false
  ConsumerFits popping true held = 0 < held
  ConsumerFits popping false held = held ≡ 0
  ConsumerFits (pushing x) signalled held = ⊥

  pub record IsPair (s : Pair A) (xs : List A) : Type ℓ where
    pub held : Holds s.queue xs
    pub order : s.sent ≡ s.received ++ xs
    pub producer_fits : ProducerFits s.producer s.room_signal (length xs) s.queue.queue_size
    pub consumer_fits : ConsumerFits s.consumer s.item_signal (length xs)

  pub ConsumerFits-put :
      (p : Pc A) (signalled : Bool) (n : ℕ)
      → ConsumerFits p signalled n
      → ConsumerFits p (signal true (waits_for_item p) signalled) (suc n)
  ConsumerFits-put idle signalled n h = h
  ConsumerFits-put popping signalled n h = omega arith
  ConsumerFits-put (pushing x) signalled n h = h

  pub ProducerFits-got :
      (p : Pc A) (signalled : Bool) (n size : ℕ)
      → suc n ≤ size
      → ProducerFits p signalled (suc n) size
      → ProducerFits p (signal true (waits_for_room p) signalled) n size
  ProducerFits-got idle signalled n size room h = h
  ProducerFits-got (pushing x) signalled n size room h = omega arith
  ProducerFits-got popping signalled n size room h = h

  -- What a step of the producer comes to: an item more, and no call; or the same items, and a fitting place.
  abbrev pub Puts : Queue A → List A → A → Outcome A → Type ℓ
  Puts q xs x o =
      (p : Queue A) × (o ≡ record { queue = p; pc = idle; put = x ∷ []; got = [] })
      × Holds p (xs ++ x ∷ [])
      × (p.queue_size ≡ q.queue_size)

  abbrev pub PutsNone : Queue A → List A → Outcome A → Type ℓ
  PutsNone q xs o =
      (p : Queue A) × (pc : Pc A) × (o ≡ record { queue = p; pc = pc; put = []; got = [] })
      × Holds p xs
      × (p.queue_size ≡ q.queue_size)
      × ProducerFits pc false (length xs) q.queue_size

  abbrev pub Gets : Queue A → List A → Outcome A → Type ℓ
  Gets q xs o =
      (p : Queue A) × (x : A) × (ys : List A) × (o
        ≡ record { queue = p; pc = idle; put = []; got = x ∷ [] })
      × (xs ≡ x ∷ ys)
      × Holds p ys
      × (p.queue_size ≡ q.queue_size)

  abbrev pub GetsNone : Queue A → List A → Outcome A → Type ℓ
  GetsNone q xs o =
      (p : Queue A) × (pc : Pc A) × (o ≡ record { queue = p; pc = pc; put = []; got = [] })
      × Holds p xs
      × (p.queue_size ≡ q.queue_size)
      × ConsumerFits pc false (length xs)

  module _ {q : Queue A} {xs : List A} (h : Holds q xs) where
    pub push_outcome :
        (x : A) (timeout : ℕ)
        → Puts q xs x (act (push_call x timeout) q idle)
          ⊎ PutsNone q xs (act (push_call x timeout) q idle)
    unfolding act begin_push enqueue
    push_outcome x timeout = elim (Bool-cases (leb q.queue_size (int_to_size q.length))) [
      | inr room ↦
          let less : length xs < q.queue_size = ground (arith, h.count, h.valid) in
          inl ((enqueue x q).1, rw room refl, (enqueue-Holds x h less).1, refl)
      | inl full ↦
          let filled : length xs ≡ q.queue_size = ground (arith, h.count, h.valid) in
          elim (Bool-cases (ltb 0 timeout)) [
            | inl time ↦ inr (
              record q { waiting_full = inc_int q.waiting_full },
              pushing x,
              rw (full, time) refl,
              Holds-waiting_full (inc_int q.waiting_full) h,
              refl,
              filled,
            )
            | inr no_time ↦ inr (q, idle, rw (full, no_time) refl, h, refl, refl)
          ]
    ]

    pub push_resume_outcome :
        (x : A) (w : WaitResult) (signalled : Bool)
        → Agrees w signalled
        → ProducerFits (pushing x) signalled (length xs) q.queue_size
        → Puts q xs x (act (wake w) q (pushing x)) ⊎ PutsNone q xs (act (wake w) q (pushing x))
    unfolding act push_woken enqueue
    push_resume_outcome x woken true ok room =
        let h' = Holds-waiting_full (dec_int q.waiting_full) h in
        inl (_, refl, (enqueue-Holds x h' room).1, refl)
    push_resume_outcome x woken false ok room = cc
    push_resume_outcome x timed_out signalled ok room =
        inr (_, idle, refl, Holds-waiting_full (dec_int q.waiting_full) h, refl, refl)
    push_resume_outcome x failed signalled ok room =
        inr (_, idle, refl, Holds-waiting_full (dec_int q.waiting_full) h, refl, refl)

  pub pop_outcome :
      {q : Queue A} (xs : List A) (timeout : ℕ)
      → Holds q xs
      → Gets q xs (act (pop_call timeout) q idle) ⊎ GetsNone q xs (act (pop_call timeout) q idle)
  unfolding act begin_pop dequeue
  pop_outcome {q} (x ∷ xs) timeout h =
      let item : is_nonpos q.length ≡ false = ground (arith, h.count, h.valid) in
      let (rc, got, held) = dequeue-Holds x h in
      inl ((dequeue q).2, x, xs, rw (item, got) refl, refl, held, refl)
  pop_outcome {q} [] timeout h =
      let empty : is_nonpos q.length ≡ true = ground (arith, h.count) in
      elim (Bool-cases (ltb 0 timeout)) [
        | inl time ↦ inr (
          record q { waiting_empty = inc_int q.waiting_empty },
          popping,
          rw (empty, time) refl,
          Holds-waiting_empty (inc_int q.waiting_empty) h,
          refl,
          refl,
        )
        | inr no_time ↦ inr (q, idle, rw (empty, no_time) refl, h, refl, refl)
      ]

  pub pop_resume_outcome :
      {q : Queue A} (xs : List A) (w : WaitResult) (signalled : Bool)
      → Holds q xs
      → Agrees w signalled
      → ConsumerFits popping signalled (length xs)
      → Gets q xs (act (wake w) q popping) ⊎ GetsNone q xs (act (wake w) q popping)
  unfolding act pop_woken dequeue
  pop_resume_outcome xs woken false h ok fits = cc
  pop_resume_outcome [] woken true h ok fits = absurd (omega arith)
  pop_resume_outcome {q} (x ∷ xs) woken true h ok fits =
      let h' = Holds-waiting_empty (dec_int q.waiting_empty) h in
      let (rc, got, held) = dequeue-Holds x h' in inl (_, x, xs, rw got refl, refl, held, refl)
  pop_resume_outcome {q} xs timed_out signalled h ok fits =
      inr (_, idle, refl, Holds-waiting_empty (dec_int q.waiting_empty) h, refl, refl)
  pop_resume_outcome {q} xs failed signalled h ok fits =
      inr (_, idle, refl, Holds-waiting_empty (dec_int q.waiting_empty) h, refl, refl)
