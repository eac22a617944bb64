-- ===== src/Core/Threads.antt =====
-- src/lsp_core.c with the core task in its loop and other threads that send it events. The mutex of the
-- queue is held all the time but in the task's wait: a call of `lsp_core_sendevent`, whose timeout is 0,
-- is one step, and a turn of the loop is cut where it waits.
pub mod Running
use liblsp.Prelude.{
  ℕ, Bool, true, false, Option, none, some, List, [], ◌∷◌, ◌++◌, ◌≡◌, ◌==◌, ◌>>=◌, if◌then◌else◌,
  Run, ok, fault, out_of_fuel,
}
use liblsp.Types.{err_none}
use liblsp.Queue.{Queue, WaitResult, pop_woken}
use liblsp.Queue.Threads.{Pc, idle, pushing, popping, Begun, waits, returns, begin_pop, listed}
use liblsp.Queue.Threads.Pair.{signal, Agrees, waits_for_item}
use liblsp.Core.{CoreEvent, Core, core_sendevent, next_event, next_sleep}

-- The variables of lsp_core.c; where the task is, whether it was signalled in its wait, and its variable
-- `event`, `none` once a pop reports success and stores nothing in it; whether a call came to a bad pointer; the events that were
-- accepted, and those that were taken from the queue and came to the `switch`, the first one first.
pub record Tasks : Type 0 where
  pub core : Core
  pub task : Pc CoreEvent
  pub signalled : Bool
  pub event : Option CoreEvent
  pub faulted : Bool
  pub accepted : List CoreEvent
  pub handled : List CoreEvent

-- A call of `lsp_core_sendevent`, which signals the task where it puts the event in.
unfoldable pub sent : Tasks → CoreEvent → Run (ℕ × Core) → Tasks
sent s e (ok (rc, core)) = record s {
  core = core;
  signalled = signal (rc == err_none) (waits_for_item s.task) s.signalled;
  accepted = s.accepted ++ (if rc == err_none then e ∷ [] else []);
}
sent s e fault = record s { faulted = true }
sent s e out_of_fuel = record s { faulted = true }

-- A call on the queue, which is a fault where that is NULL or was freed.
abbrev pub on_queue : Tasks → (Queue CoreEvent → Tasks) → Tasks
on_queue s f = elim s.core.evqueue [
  | none ↦ record s { faulted = true }
  | some q ↦ if s.core.freed then record s { faulted = true } else f q
]

module _ (no_event : ℕ) where
  -- The rest of a turn, from the return of `lsp_queue_pop` on.
  unfoldable pub turn_ends : Tasks → ℕ × Option CoreEvent × Queue CoreEvent → Tasks
  turn_ends s (rc, item, q) =
      let event = s.event >>= next_event no_event rc item in
      record s {
        core = record s.core { evqueue = some q };
        task = idle;
        signalled = false;
        event = event;
        handled = s.handled ++ (if rc == err_none then listed event else []);
      }

  -- A turn up to the wait of `lsp_queue_pop`, if it comes to one.
  unfoldable pub turn_begins : Tasks → Begun CoreEvent → Tasks
  turn_begins s (waits q) = record s {
    core = record s.core { evqueue = some q };
    task = popping;
    signalled = false;
  }
  turn_begins s (returns rc item q) = turn_ends s (rc, item, q)

  -- Another thread sends an event, or the task goes on. Its wait ends with `woken` if it was signalled.
  pub data CoreStep (s : Tasks) : Tasks → Type 0 where
    sends :
        (wait : Queue CoreEvent → WaitResult × Queue CoreEvent)
        → (e : CoreEvent)
        → CoreStep s (sent s e (core_sendevent err_none wait s.core e.ev e.event_data))
    begins : s.task ≡ idle → CoreStep s (on_queue s (λ q. turn_begins s (begin_pop q next_sleep)))
    resumes :
        (w : WaitResult)
        → s.task ≡ popping
        → Agrees w s.signalled
        → CoreStep s (on_queue s (λ q. turn_ends s (pop_woken (w, q))))

  pub data CoreReach (s : Tasks) : Tasks → Type 0 where
    here : CoreReach s s
    next : {t u : Tasks} → CoreReach s t → CoreStep t u → CoreReach s u
