-- ===== src/Queue/Threads.antt =====
-- src/arch/posix/lsp_queue.c with several threads: what runs between two releases of the queue's mutex
-- is one step, and a thread in `queue_wait_internal` may be woken at any time, as POSIX allows.
pub mod Counters
pub mod Order
pub mod Pair
pub mod Stolen
mod Tests
use liblsp.Prelude.{
  ℕ, zero, suc, ◌+◌, ◌<◌, ◌≡◌, refl, Bool, true, false, Option, none, some, List, [], ◌∷◌, ◌++◌,
  arith, ◌==◌, ltb, leb, if◌then◌else◌, update, inc_int, int_to_size, is_nonpos, Bool-cases, inl,
  inr,
}
use liblsp.Types.{err_none, err_queue_full, err_queue_empty}
use liblsp.Queue.{Queue, WaitResult, enqueue, dequeue, push_woken, pop_woken, push, pop}

-- How far a call comes before it waits: it waits, or it returns a result and, for a pop, an item.
pub data Begun {ℓ} (A : Type ℓ) : Type ℓ where
  waits : Queue A → Begun A
  returns : ℕ → Option A → Queue A → Begun A

module _ {ℓ} {A : Type ℓ} where
  abbrev pub returned_push : ℕ × Queue A → Begun A
  returned_push (rc, q) = returns rc none q

  abbrev pub returned_pop : ℕ × Option A × Queue A → Begun A
  returned_pop (rc, item, q) = returns rc item q

  -- `lsp_queue_push` from the lock to the wait.
  unfoldable pub begin_push : Queue A → A → (timeout : ℕ) → Begun A
  begin_push q item timeout =
      if leb q.queue_size (int_to_size q.length)
      then if ltb 0 timeout
        then waits (record q { waiting_full = inc_int q.waiting_full })
        else returns err_queue_full none q
      else returned_push (enqueue item q)

  -- `lsp_queue_pop` from the lock to the wait.
  unfoldable pub begin_pop : Queue A → (timeout : ℕ) → Begun A
  begin_pop q timeout =
      if is_nonpos q.length
      then if ltb 0 timeout
        then waits (record q { waiting_empty = inc_int q.waiting_empty })
        else returns err_queue_empty none q
      else returned_pop (dequeue q)

-- Where a thread is: in no call, or in the wait of a call.
pub data Pc {ℓ} (A : Type ℓ) : Type ℓ where
  idle : Pc A
  pushing : A → Pc A
  popping : Pc A

-- What a thread may do: a call, if it is in none, or the end of its wait.
pub data Action {ℓ} (A : Type ℓ) : Type ℓ where
  push_call : A → (timeout : ℕ) → Action A
  pop_call : (timeout : ℕ) → Action A
  wake : WaitResult → Action A

-- What comes of it: the queue, where the thread is then, and what it has put in and taken out.
pub record Outcome {ℓ} (A : Type ℓ) : Type ℓ where
  pub queue : Queue A
  pub pc : Pc A
  pub put : List A
  pub got : List A

module _ {ℓ} {A : Type ℓ} where
  abbrev pub listed : Option A → List A
  listed none = []
  listed (some x) = x ∷ []

  abbrev pub pushed : A → ℕ × Queue A → Outcome A
  pushed x (rc, q) = record {
    queue = q;
    pc = idle;
    put = if rc == err_none then x ∷ [] else [];
    got = [];
  }

  abbrev pub popped : ℕ × Option A × Queue A → Outcome A
  popped (rc, item, q) = record { queue = q; pc = idle; put = []; got = listed item }

  abbrev pub push_begun : A → Begun A → Outcome A
  push_begun x (waits q) = record { queue = q; pc = pushing x; put = []; got = [] }
  push_begun x (returns rc item q) = pushed x (rc, q)

  abbrev pub pop_begun : Begun A → Outcome A
  pop_begun (waits q) = record { queue = q; pc = popping; put = []; got = [] }
  pop_begun (returns rc item q) = popped (rc, item, q)

  -- A thread that is not where the action begins does nothing.
  unfoldable pub act : Action A → Queue A → Pc A → Outcome A
  act (push_call x timeout) q idle = push_begun x (begin_push q x timeout)
  act (pop_call timeout) q idle = pop_begun (begin_pop q timeout)
  act (wake w) q (pushing x) = pushed x (push_woken x (w, q))
  act (wake w) q popping = popped (pop_woken (w, q))
  act a q pc = record { queue = q; pc = pc; put = []; got = [] }

-- The queue and its threads, and what they have put in and taken out so far, the first one first.
pub record System {ℓ} (A : Type ℓ) : Type ℓ where
  pub queue : Queue A
  pub pc : ℕ → Pc A
  pub sent : List A
  pub received : List A

module _ {ℓ} {A : Type ℓ} where
  abbrev pub moved : ℕ → System A → Outcome A → System A
  moved i s o = record {
    queue = o.queue;
    pc = update s.pc i o.pc;
    sent = s.sent ++ o.put;
    received = s.received ++ o.got;
  }

  -- Threads that have not called anything, on a queue.
  abbrev pub start : Queue A → System A
  start q = record { queue = q; pc = λ i. idle; sent = []; received = [] }

-- One of `n` threads acts.
pub data Step {ℓ} {A : Type ℓ} (n : ℕ) (s : System A) : System A → Type ℓ where
  pick : (i : ℕ) → i < n → (a : Action A) → Step n s (moved i s (act a s.queue (s.pc i)))

pub data Reach {ℓ} {A : Type ℓ} (n : ℕ) (q : Queue A) : System A → Type ℓ where
  here : Reach n q (start q)
  next : {s t : System A} → Reach n q s → Step n s t → Reach n q t

module _ {ℓ} {A : Type ℓ} where
  -- The two parts of a call, with the wait between them.
  abbrev pub push_ends : A → (Queue A → WaitResult × Queue A) → Begun A → ℕ × Queue A
  push_ends x wait (waits q) = push_woken x (wait q)
  push_ends x wait (returns rc item q) = (rc, q)

  abbrev pub pop_ends : (Queue A → WaitResult × Queue A) → Begun A → ℕ × Option A × Queue A
  pop_ends wait (waits q) = pop_woken (wait q)
  pop_ends wait (returns rc item q) = (rc, item, q)

  -- The parts make up the whole calls, once the lock is taken.
  pub push-begin_push :
      (wait : Queue A → WaitResult × Queue A) (q : Queue A) (x : A) (timeout : ℕ)
      → push err_none wait q x timeout ≡ push_ends x wait (begin_push q x timeout)
  unfolding push begin_push
  push-begin_push wait q x timeout = ground arith

  pub pop-begin_pop :
      (wait : Queue A → WaitResult × Queue A) (q : Queue A) (timeout : ℕ)
      → pop err_none wait q timeout ≡ pop_ends wait (begin_pop q timeout)
  unfolding pop begin_pop
  pop-begin_pop wait q timeout = ground arith
