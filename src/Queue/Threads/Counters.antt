-- ===== src/Queue/Threads/Counters.antt =====
-- The counters of waiting threads, and what `lsp_queue_destroy` and `lsp_queue_clear` make of them.
use liblsp.Prelude.{
  ℕ, zero, suc, ◌+◌, ◌^◌, ◌≤◌, ◌<◌, ◌≡◌, refl, ap, Bool, none, some, arith, ◌==◌, if◌then◌else◌,
  update, ◌&&◌,
}
use liblsp.Types.{err_none, err_resource_in_use}
use liblsp.Queue.{
  Queue, woken, timed_out, failed, enqueue, dequeue, push_woken, pop_woken, destroy, clear,
}
use liblsp.Queue.Threads.{
  Pc, idle, pushing, popping, Action, push_call, pop_call, wake, Outcome, act, begin_push,
  begin_pop, System, Step, pick, Reach, here, next,
}

-- The sum of the weights of the first `n` threads.
abbrev pub total {ℓ} : {A : Type ℓ} → (Pc A → ℕ) → ℕ → (ℕ → Pc A) → ℕ
total w zero pc = 0
total w (suc n) pc = total w n pc + w (pc n)

module _ {ℓ} {A : Type ℓ} where
  abbrev pub in_push : Pc A → ℕ
  in_push (pushing x) = 1
  in_push pc = 0

  abbrev pub in_pop : Pc A → ℕ
  in_pop popping = 1
  in_pop pc = 0

  module _ (w : Pc A → ℕ) where
    total-update_of_le :
        (n : ℕ) (pc : ℕ → Pc A) (i : ℕ) (p : Pc A)
        → n ≤ i
        → total w n (update pc i p) ≡ total w n pc
    total-update_of_le zero pc i p h = refl
    total-update_of_le (suc n) pc i p h = ground (arith, total-update_of_le n pc i p)

    total-update :
        (n : ℕ) (pc : ℕ → Pc A) (i : ℕ) (p : Pc A)
        → i < n
        → total w n (update pc i p) + w (pc i) ≡ total w n pc + w p
    total-update zero pc i p h = absurd (omega arith)
    total-update (suc n) pc i p h = ground (
      arith,
      total-update n pc i p,
      total-update_of_le n pc i p,
      λ (e : n ≡ i). ap (λ k. w (pc k)) e,
    )

    le-total : (n : ℕ) (pc : ℕ → Pc A) (i : ℕ) → i < n → w (pc i) ≤ total w n pc
    le-total zero pc i h = absurd (omega arith)
    le-total (suc n) pc i h = ground (arith, le-total n pc i, λ (e : n ≡ i). ap (λ k. w (pc k)) e)

    total-le : ((p : Pc A) → w p ≤ 1) → (n : ℕ) (pc : ℕ → Pc A) → total w n pc ≤ n
    total-le small zero pc = omega arith
    total-le small (suc n) pc = omega (arith, small (pc n), total-le small n pc)

    total-idle : w idle ≡ 0 → (n : ℕ) → total w n (λ i. idle) ≡ 0
    total-idle e zero = refl
    total-idle e (suc n) = omega (arith, e, total-idle e n)

  -- The counters say how many of the threads wait to push, and to pop.
  pub record Counted (n : ℕ) (s : System A) : Type 0 where
    pub pushers : s.queue.waiting_full ≡ total in_push n s.pc
    pub poppers : s.queue.waiting_empty ≡ total in_pop n s.pc

  -- Room for one more waiter in a counter, and the thread counted if it waits.
  abbrev Fits : Queue A → Pc A → Type 0
  Fits q p =
      (in_push p ≤ q.waiting_full)
      × (q.waiting_full < 2 ^ 31)
      × (in_pop p ≤ q.waiting_empty)
      × (q.waiting_empty < 2 ^ 31)

  -- The changes of both counters are those of the waits of the thread that acts.
  abbrev Counts : Queue A → Pc A → Outcome A → Type 0
  Counts q p o =
      (o.queue.waiting_full + in_push p ≡ q.waiting_full + in_push o.pc)
      × (o.queue.waiting_empty + in_pop p ≡ q.waiting_empty + in_pop o.pc)

  act-Counts : (a : Action A) (q : Queue A) (p : Pc A) → Fits q p → Counts q p (act a q p)
  unfolding act begin_push begin_pop enqueue dequeue push_woken pop_woken
  act-Counts (push_call x t) q idle h = ground arith
  act-Counts (push_call x t) q (pushing y) h = ground arith
  act-Counts (push_call x t) q popping h = ground arith
  act-Counts (pop_call t) q idle h = ground arith
  act-Counts (pop_call t) q (pushing y) h = ground arith
  act-Counts (pop_call t) q popping h = ground arith
  act-Counts (wake w) q idle h = ground arith
  act-Counts (wake woken) q (pushing y) h = ground arith
  act-Counts (wake timed_out) q (pushing y) h = ground arith
  act-Counts (wake failed) q (pushing y) h = ground arith
  act-Counts (wake woken) q popping h = ground arith
  act-Counts (wake timed_out) q popping h = ground arith
  act-Counts (wake failed) q popping h = ground arith

  in_push-le : (p : Pc A) → in_push p ≤ 1
  in_push-le idle = omega arith
  in_push-le (pushing x) = omega arith
  in_push-le popping = omega arith

  in_pop-le : (p : Pc A) → in_pop p ≤ 1
  in_pop-le idle = omega arith
  in_pop-le (pushing x) = omega arith
  in_pop-le popping = omega arith

  Step-Counted : {n : ℕ} {s t : System A} → n < 2 ^ 31 → Step n s t → Counted n s → Counted n t
  Step-Counted {n} {s} few (pick i lt a) c =
      let o = act a s.queue (s.pc i) in
      let (full, empty) = act-Counts a s.queue (s.pc i) (
        omega (arith, c.pushers, le-total in_push n s.pc i lt),
        omega (arith, c.pushers, total-le in_push in_push-le n s.pc),
        omega (arith, c.poppers, le-total in_pop n s.pc i lt),
        omega (arith, c.poppers, total-le in_pop in_pop-le n s.pc),
      ) in
      record {
        pushers = omega (arith, c.pushers, full, total-update in_push n s.pc i o.pc lt);
        poppers = omega (arith, c.poppers, empty, total-update in_pop n s.pc i o.pc lt);
      }

  -- Of fewer than 2^31 threads, the two counters of the queue say at every moment how many wait to push, and
  -- how many to pop, however the waits end.
  pub Reach-Counted :
      {n : ℕ} {q : Queue A} {s : System A}
      → n < 2 ^ 31
      → q.waiting_full ≡ 0
      → q.waiting_empty ≡ 0
      → Reach n q s
      → Counted n s
  Reach-Counted {n} few full empty here = record {
    pushers = omega (arith, full, total-idle in_push refl n);
    poppers = omega (arith, empty, total-idle in_pop refl n);
  }
  Reach-Counted few full empty (next r st) = Step-Counted few st (Reach-Counted few full empty r)

  abbrev pub nobody_waits : ℕ → System A → Bool
  nobody_waits n s = total in_push n s.pc == 0 && total in_pop n s.pc == 0

  abbrev pub emptied : Queue A → Queue A
  emptied q = record q { head = 0; tail = 0; length = 0 }

  -- With fewer than 2^31 threads, `lsp_queue_destroy` frees the queue exactly while none of them waits on it,
  -- and `lsp_queue_clear` resets its length, head and tail to 0 exactly then; else they give
  -- LSP_ERR_RESOURCE_IN_USE, and the queue stays as it was.
  pub destroy-nobody_waits :
      {n : ℕ} {q : Queue A} {s : System A}
      → n < 2 ^ 31
      → q.waiting_full ≡ 0
      → q.waiting_empty ≡ 0
      → Reach n q s
      → (destroy s.queue
          ≡ (if nobody_waits n s then none else some err_resource_in_use, nobody_waits n s))
        × (clear s.queue ≡ (
            if nobody_waits n s
            then (err_none, emptied s.queue)
            else (err_resource_in_use, s.queue)))
  unfolding destroy clear
  destroy-nobody_waits few full empty r =
      let c = Reach-Counted few full empty r in ground (arith, c.pushers, c.poppers)
