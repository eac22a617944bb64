-- ===== src/Core.antt =====
-- src/lsp_core.c: the core task and its queue of events. `lsp_events_t` and its members are declared
-- nowhere in the repository: an event code is a number, and LSP_EV_NO_EVENT a parameter.
pub mod Deliver
pub mod Start
pub mod Threads
mod Tests
use liblsp.Prelude.{
  ℕ, zero, suc, Bool, false, Option, none, some, List, [], ◌∷◌, not, ◌==◌, ◌||◌, ◌>>=◌,
  if◌then◌else◌, Ptr, Run, ok, fault, pos,
}
use liblsp.Types.{err_none, err_timeout, err_queue_empty, default_core_evqueue_len}
use liblsp.Queue.{Queue, WaitResult, create, push, pop, destroy}
use liblsp.Thread.{thread_create}

-- `struct lsp_core_event`
pub record CoreEvent : Type 0 where
  pub ev : ℕ
  pub event_data : Ptr

-- `lsp_core_evqueue`, `none` for NULL, and whether the block behind the handle was freed.
pub record Core : Type 0 where
  pub evqueue : Option (Queue CoreEvent)
  pub freed : Bool

-- `nextSleep`, in milliseconds.
abbrev pub next_sleep : ℕ
next_sleep = 500

-- What stands behind the creation of the queue in `lsp_core_start`.
unfoldable pub start_with :
    (pthread_create : ℕ)
    → (meanwhile : Queue CoreEvent → Queue CoreEvent) → Option (Queue CoreEvent)
    → Option ℕ × Core
start_with pthread_create meanwhile none = (none, record { evqueue = none; freed = false })
start_with pthread_create meanwhile (some q) =
    let rc = thread_create pthread_create in
    let q' = if rc == err_none then meanwhile q else q in
    (some rc, record { evqueue = some q'; freed = (destroy q').1 })

-- `lsp_core_start`: its result, `none` for a variable without a value, and the static variables. The
-- queue is created with `sizeof_handle`, `malloc`, `setup` and `blank`; `pthread_create` is that
-- call's result, and `meanwhile` what the new thread makes of the queue before it is destroyed.
unfoldable pub core_start :
    (sizeof_handle : ℕ)
    → (malloc : ℕ → Ptr) → (setup : Bool) → (blank : CoreEvent) → (sizeof_event : ℕ)
    → (pthread_create : ℕ) → (meanwhile : Queue CoreEvent → Queue CoreEvent) → Option ℕ × Core
core_start sizeof_handle malloc setup blank sizeof_event pthread_create meanwhile =
    start_with pthread_create meanwhile
      (create sizeof_handle malloc setup blank (pos default_core_evqueue_len) sizeof_event)

-- `lsp_core_sendevent`: a fault where the queue is NULL or was freed.
unfoldable pub core_sendevent :
    (lock : ℕ)
    → (wait : Queue CoreEvent → WaitResult × Queue CoreEvent) → Core
    → (ev : ℕ) → (event_data : Ptr) → Run (ℕ × Core)
core_sendevent lock wait core ev event_data = elim core.evqueue [
  | none ↦ fault
  | some q ↦
      let (rc, q') = push lock wait q (record { ev = ev; event_data = event_data }) 0 in
      if core.freed then fault else ok (rc, record core { evqueue = some q' })
]

module _ (no_event : ℕ) where
  -- The variable `event` behind the call of `lsp_queue_pop`.
  unfoldable pub next_event : ℕ → Option CoreEvent → CoreEvent → Option CoreEvent
  next_event rc item event =
      if rc == err_timeout || rc == err_queue_empty
      then some (record event { ev = no_event })
      else if not (rc == err_none)
      then some (record event { ev = no_event })
      else item

module _ (no_event : ℕ) (lock : ℕ) (wait : Queue CoreEvent → WaitResult × Queue CoreEvent) where
  -- A turn of the loop of `lsp_core_task`: the event that comes to the `switch`, whose cases are
  -- empty, and the queue.
  unfoldable pub core_turn : CoreEvent → Queue CoreEvent → Option CoreEvent × Queue CoreEvent
  core_turn event q =
      let (rc, item, q') = pop lock wait q next_sleep in (next_event no_event rc item event, q')

  -- So many turns: the events that came to the `switch`.
  unfoldable pub core_turns :
      ℕ → CoreEvent → Queue CoreEvent → Option (List CoreEvent × Queue CoreEvent)
  core_turns zero event q = some ([], q)
  core_turns (suc n) event q =
      let turn = core_turn event q in
      do e ← turn.0; rest ← core_turns n e turn.1; some (e ∷ rest.0, rest.1)
