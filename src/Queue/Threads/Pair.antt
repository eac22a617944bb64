-- ===== src/Queue/Threads/Pair.antt =====
-- A queue between one thread that pushes and one that pops, with the signals of lsp_queue.c: a push signals
-- `cond_empty`, a pop `cond_full`, and a thread in a wait ends it by a signal, or by an error.
pub mod Outcomes
pub mod Safety
use liblsp.Prelude.{
  ℕ, zero, suc, ◌+◌, ◌≤◌, ◌<◌, ◌≡◌, ◌≢◌, refl, ap, sym, subst, append-nil, length-append, ◌∙◌, Bool,
  true, false, Bool-cases, inl, inr, List, [], ◌∷◌, ◌++◌, append_assoc, arith, length,
  if◌then◌else◌, ltb, leb, int_to_size, dec_int, inc_int, is_nonpos, ◌⊎◌,
}
use liblsp.Queue.Fifo.{enqueue-Holds, dequeue-Holds}
use liblsp.Queue.Wait.{Holds-waiting_full, Holds-waiting_empty}
use liblsp.Queue.{
  Queue, WaitResult, woken, timed_out, failed, enqueue, dequeue, push_woken, pop_woken,
}
use liblsp.Queue.Ring.{Holds}
use liblsp.Queue.Threads.{
  Pc, idle, pushing, popping, Action, push_call, pop_call, wake, Outcome, act, begin_push,
  begin_pop,
}
use liblsp.Queue.Threads.Order.{InTime, Keeps, act-Keeps}

-- Whether a thread in a wait has been signalled.
pub record Pair {ℓ} (A : Type ℓ) : Type ℓ where
  pub queue : Queue A
  pub producer : Pc A
  pub consumer : Pc A
  pub room_signal : Bool
  pub item_signal : Bool
  pub sent : List A
  pub received : List A

-- `pthread_cond_signal` sets the signal of a thread that waits, and is lost where none does.
abbrev pub signal : (moved waiting pending : Bool) → Bool
signal true true pending = true
signal moved waiting pending = pending

-- A wait ends with `woken` if and only if the thread was signalled.
abbrev pub Agrees : WaitResult → Bool → Type 0
Agrees woken signalled = signalled ≡ true
Agrees w signalled = signalled ≡ false

module _ {ℓ} {A : Type ℓ} where
  abbrev pub moved_any : List A → Bool
  moved_any [] = false
  moved_any (x ∷ xs) = true

  abbrev pub waits_for_item : Pc A → Bool
  waits_for_item popping = true
  waits_for_item p = false

  abbrev pub waits_for_room : Pc A → Bool
  waits_for_room (pushing x) = true
  waits_for_room p = false

  -- A step of the producer; its own signal is spent.
  abbrev pub produce : Pair A → Outcome A → Pair A
  produce s o = record {
    queue = o.queue;
    producer = o.pc;
    consumer = s.consumer;
    room_signal = false;
    item_signal = signal (moved_any o.put) (waits_for_item s.consumer) s.item_signal;
    sent = s.sent ++ o.put;
    received = s.received ++ o.got;
  }

  abbrev pub consume : Pair A → Outcome A → Pair A
  consume s o = record {
    queue = o.queue;
    producer = s.producer;
    consumer = o.pc;
    room_signal = signal (moved_any o.got) (waits_for_room s.producer) s.room_signal;
    item_signal = false;
    sent = s.sent ++ o.put;
    received = s.received ++ o.got;
  }

  abbrev pub pair : Queue A → Pair A
  pair q = record {
    queue = q;
    producer = idle;
    consumer = idle;
    room_signal = false;
    item_signal = false;
    sent = [];
    received = [];
  }

pub data PairStep {ℓ} {A : Type ℓ} (s : Pair A) : Pair A → Type ℓ where
  push_runs :
      (x : A) (timeout : ℕ)
      → s.producer ≡ idle
      → PairStep s (produce s (act (push_call x timeout) s.queue idle))
  push_resumes :
      (x : A) (w : WaitResult)
      → s.producer ≡ pushing x
      → Agrees w s.room_signal
      → PairStep s (produce s (act (wake w) s.queue (pushing x)))
  pop_runs :
      (timeout : ℕ)
      → s.consumer ≡ idle
      → PairStep s (consume s (act (pop_call timeout) s.queue idle))
  pop_resumes :
      (w : WaitResult)
      → s.consumer ≡ popping
      → Agrees w s.item_signal
      → PairStep s (consume s (act (wake w) s.queue popping))

pub data PairReach {ℓ} {A : Type ℓ} (q : Queue A) : Pair A → Type ℓ where
  here : PairReach q (pair q)
  next : {s t : Pair A} → PairReach q s → PairStep s t → PairReach q t
