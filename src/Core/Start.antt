-- ===== src/Core/Start.antt =====
-- src/lsp_core.c: what `lsp_core_start` leaves behind.
use liblsp.Prelude.{
  Bool, ◌==◌, ◌&&◌, ◌+◌, ℕ, ◌*◌, ◌<◌, ◌≡◌, ◌≢◌, refl, true, false, some, [], arith, Ptr, null,
  fault, add_size, size_mod, test_of_ne, is_nonpos,
}
use liblsp.Types.{err, err_none, aligned_size, default_core_evqueue_len}
use liblsp.Queue.{Queue, WaitResult, destroy}
use liblsp.Queue.Ring.{Holds}
use liblsp.Queue.Create.{create-Holds}
use liblsp.Queue.Wait.{Holds-waiting_empty}
use liblsp.Queue.Threads.{Begun, waits, returns, begin_pop}
use liblsp.Thread.{thread_create}
use liblsp.Core.{CoreEvent, Core, core_start, start_with, core_sendevent, next_sleep}
use liblsp.Core.Deliver.{in_use}

-- The queue where a call has come to its wait, or to its end.
abbrev pub reached {ℓ} : {A : Type ℓ} → Begun A → Queue A
reached (waits q) = q
reached (returns rc item q) = q

-- The core task in the wait of its first call of `lsp_queue_pop`.
abbrev pub in_first_wait : Queue CoreEvent → Queue CoreEvent
in_first_wait q = reached (begin_pop q next_sleep)

-- Nobody waits on a queue, by its counters.
abbrev pub unattended : Queue CoreEvent → Bool
unattended q = q.waiting_full == 0 && q.waiting_empty == 0

-- What `lsp_core_start` leaves of a queue, which it frees where nobody waits on it.
abbrev pub left_behind : Queue CoreEvent → Core
left_behind q = record { evqueue = some q; freed = unattended q }

destroy-unattended : (q : Queue CoreEvent) → (destroy q).1 ≡ unattended q
unfolding destroy
destroy-unattended q = ground arith

in_first_wait-Holds :
    (q : Queue CoreEvent)
    → Holds q []
    → q.waiting_empty ≡ 0
    → Holds (in_first_wait q) [] × (unattended (in_first_wait q) ≡ false)
unfolding begin_pop
in_first_wait-Holds q h e =
    let go : is_nonpos q.length ≡ true = ground (arith, h.count) in
    rw (go, e) (Holds-waiting_empty 1 h, ground arith)

module _ (sizeof_handle : ℕ) (malloc : ℕ → Ptr) (blank : CoreEvent) (sizeof_event : ℕ)
    (some_size : 0 < sizeof_event)
    (fits : aligned_size sizeof_handle + default_core_evqueue_len * sizeof_event < size_mod)
    (memory : malloc
        (add_size (aligned_size sizeof_handle) (default_core_evqueue_len * sizeof_event))
      ≢ null) where
  -- With memory for its events and pthread objects, in a block smaller than 2^64, `lsp_core_start` makes an
  -- empty queue on which nobody waits, and goes from a started thread on into the clean-up. It reports
  -- success, whatever the new thread and others make of the queue meanwhile; but the queue is freed exactly
  -- if nobody waits on it at that moment, and every later event is then sent into freed memory. So it is if
  -- the task has not yet come to its first wait; in that wait the queue stays, empty, for the task to use.
  -- Where no thread starts, the result is LSP_ERR and the queue is freed.
  pub core_start-race :
      (q : Queue CoreEvent) × Holds q []
      × (unattended q ≡ true)
      × ((meanwhile : Queue CoreEvent → Queue CoreEvent)
          → core_start sizeof_handle malloc true blank sizeof_event 0 meanwhile
            ≡ (some err_none, left_behind (meanwhile q)))
      × ((p : Queue CoreEvent) (wait : Queue CoreEvent → WaitResult × Queue CoreEvent) (lock ev : ℕ)
            (event_data : Ptr)
          → unattended p ≡ true
          → core_sendevent lock wait (left_behind p) ev event_data ≡ fault)
      × Holds (in_first_wait q) []
      × (left_behind (in_first_wait q) ≡ in_use (in_first_wait q))
      × ((pthread_create : ℕ) (meanwhile : Queue CoreEvent → Queue CoreEvent)
          → pthread_create ≢ 0
          → core_start sizeof_handle malloc true blank sizeof_event pthread_create meanwhile
            ≡ (some err, record { evqueue = some q; freed = true }))
  unfolding core_start start_with thread_create core_sendevent
  core_start-race =
      let (q, made, held, size, item, no_pusher, no_popper) =
        create-Holds sizeof_handle malloc blank default_core_evqueue_len sizeof_event (omega arith)
          (omega arith) some_size fits memory in
      let (waiting, kept) = in_first_wait-Holds q held no_popper in
      let alone : unattended q ≡ true = ground (arith, no_pusher, no_popper) in
      (
        q,
        held,
        alone,
        λ meanwhile. rw (core_start, made, start_with, destroy-unattended (meanwhile q)) refl,
        λ p wait lock ev event_data nobody. rw nobody refl,
        waiting,
        rw kept refl,
        λ pthread_create meanwhile ne.
            rw (core_start, made, start_with, test_of_ne _ 0 ne, destroy-unattended q, alone) refl,
      )
