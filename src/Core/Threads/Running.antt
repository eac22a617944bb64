-- ===== src/Core/Threads/Running.antt =====
-- The core task and the threads that send to it, over any sequence of their steps.
use liblsp.Prelude.{
  ℕ, suc, ◌<◌, ◌≡◌, refl, ap, sym, subst, ◌∙◌, Bool-cases, true, false, inl, inr, Option, some,
  List, [], ◌∷◌, ◌++◌, append_assoc, append-nil, arith, ◌==◌, length, length-append, is_nonpos,
  inc_int, dec_int, ltb,
}
use liblsp.Types.{err_none}
use liblsp.Queue.{Queue, WaitResult, woken, timed_out, failed, push, pop_woken, dequeue}
use liblsp.Queue.Ring.{Holds}
use liblsp.Queue.Fifo.{push_room, push_full, dequeue-Holds}
use liblsp.Queue.Wait.{Holds-waiting_empty}
use liblsp.Queue.Threads.{popping, begin_pop}
use liblsp.Queue.Threads.Pair.{signal, Agrees, waits_for_item}
use liblsp.Queue.Threads.Pair.Outcomes.{ConsumerFits, ConsumerFits-put}
use liblsp.Core.{CoreEvent, core_sendevent, next_event, next_sleep}
use liblsp.Core.Deliver.{in_use, sendevent_lem}
use liblsp.Core.Threads.{
  Tasks, sent, turn_ends, turn_begins, on_queue, CoreStep, CoreReach, sends, begins, resumes, here,
  next,
}

-- The queue is in use and holds the accepted events that were not handled yet. The task waits without a
-- signal only at an empty queue, and with one only at a queue with an event.
pub record IsRunning (s : Tasks) (q : Queue CoreEvent) (xs : List CoreEvent) : Type 0 where
  pub in_queue : s.core ≡ in_use q
  pub held : Holds q xs
  pub order : s.accepted ≡ s.handled ++ xs
  pub fits : ConsumerFits s.task s.signalled (length xs)
  pub known : (e : CoreEvent) × (s.event ≡ some e)
  pub no_fault : s.faulted ≡ false

abbrev Runs : Tasks → Type 0
Runs s = (q : Queue CoreEvent) × (xs : List CoreEvent) × IsRunning s q xs

sent-Runs :
    {s : Tasks} {q : Queue CoreEvent} {xs : List CoreEvent}
    (wait : Queue CoreEvent → WaitResult × Queue CoreEvent) (e : CoreEvent)
    → IsRunning s q xs
    → Runs (sent s e (core_sendevent err_none wait (in_use q) e.ev e.event_data))
unfolding sent
sent-Runs {s} {q} {xs} wait e v = elim (Bool-cases (ltb (length xs) q.queue_size)) [
  | inl room ↦
      let (rc, more) = push_room wait 0 e v.held (ground (arith, room)) in
      let size : suc (length xs) ≡ length (xs ++ e ∷ []) =
        omega (arith, length-append xs (e ∷ [])) in
      (
        (push err_none wait q e 0).1,
        xs ++ e ∷ [],
        rw (sendevent_lem wait q e, rc)
            (record {
              in_queue = refl;
              held = more;
              order = ap (λ l. l ++ e ∷ []) v.order ∙ append_assoc s.handled xs (e ∷ []);
              fits =
                  subst (ConsumerFits s.task (signal true (waits_for_item s.task) s.signalled)) size
                    (ConsumerFits-put s.task s.signalled (length xs) v.fits);
              known = v.known;
              no_fault = v.no_fault;
            }),
      )
  | inr room ↦
      let full : length xs ≡ q.queue_size = ground (arith, room, v.held.count, v.held.valid) in
      (
        q,
        xs,
        rw (sendevent_lem wait q e, push_full wait e v.held full)
            (record {
              in_queue = refl;
              held = v.held;
              order = append-nil s.accepted ∙ v.order;
              fits = v.fits;
              known = v.known;
              no_fault = v.no_fault;
            }),
      )
]

next_event_none :
    (no_event rc : ℕ) (item : Option CoreEvent) (e : CoreEvent)
    → (rc == err_none) ≡ false
    → next_event no_event rc item e ≡ some (record e { ev = no_event })
unfolding next_event
next_event_none no_event rc item e bad = ground (arith, bad)

on_queue-Runs :
    {s : Tasks} {q : Queue CoreEvent} {xs : List CoreEvent} (f : Queue CoreEvent → Tasks)
    → IsRunning s q xs
    → Runs (f q)
    → Runs (on_queue s f)
on_queue-Runs {s} {q} f v runs = rw v.in_queue runs

module _ (no_event : ℕ) where
  -- The end of a turn that got the event `x`, and of one that got none.
  got-Runs :
      {s : Tasks} {q : Queue CoreEvent} {xs : List CoreEvent} (x : CoreEvent) (ys : List CoreEvent)
      (result : ℕ × Option CoreEvent × Queue CoreEvent)
      → IsRunning s q xs
      → xs ≡ x ∷ ys
      → result.0 ≡ err_none
      → result.1 ≡ some x
      → Holds result.2 ys
      → Runs (turn_ends no_event s result)
  unfolding turn_ends next_event
  got-Runs {s} x ys (rc, item, p) v split fine found held =
      let (e, known) = v.known in
      (
        p,
        ys,
        rw (fine, found, known)
            (record {
              in_queue = ap (λ c. record { evqueue = some p; freed = c.freed }) v.in_queue;
              held = held;
              order =
                  v.order
                  ∙ ap (λ l. s.handled ++ l) split
                  ∙ sym (append_assoc s.handled (x ∷ []) ys);
              fits = refl;
              known = (x, refl);
              no_fault = v.no_fault;
            }),
      )

  none-Runs :
      {s : Tasks} {q : Queue CoreEvent} {xs : List CoreEvent}
      (result : ℕ × Option CoreEvent × Queue CoreEvent)
      → IsRunning s q xs
      → (result.0 == err_none) ≡ false
      → Holds result.2 xs
      → Runs (turn_ends no_event s result)
  unfolding turn_ends next_event
  none-Runs {s} {xs = xs} (rc, item, p) v bad held =
      let (e, known) = v.known in
      (
        p,
        xs,
        rw (bad, known)
            (record {
              in_queue = ap (λ c. record { evqueue = some p; freed = c.freed }) v.in_queue;
              held = held;
              order = v.order ∙ ap (λ l. l ++ xs) (sym (append-nil s.handled));
              fits = refl;
              known = (record e { ev = no_event }, next_event_none no_event rc item e bad);
              no_fault = v.no_fault;
            }),
      )

  begins-Runs :
      {s : Tasks} {q : Queue CoreEvent} (xs : List CoreEvent)
      → IsRunning s q xs
      → Runs (turn_begins no_event s (begin_pop q next_sleep))
  unfolding turn_begins begin_pop
  begins-Runs {s} {q} (x ∷ xs) v =
      let item : is_nonpos q.length ≡ false = ground (arith, v.held.count, v.held.valid) in
      let (rc, got, held) = dequeue-Holds x v.held in
      rw item (got-Runs x xs (dequeue q) v refl rc got held)
  begins-Runs {s} {q} [] v =
      let empty : is_nonpos q.length ≡ true = ground (arith, v.held.count) in
      rw empty (
        record q { waiting_empty = inc_int q.waiting_empty },
        [],
        record {
          in_queue =
              ap
                (λ c. record {
                  evqueue = some (record q { waiting_empty = inc_int q.waiting_empty });
                  freed = c.freed;
                })
                v.in_queue;
          held = Holds-waiting_empty (inc_int q.waiting_empty) v.held;
          order = v.order;
          fits = refl;
          known = v.known;
          no_fault = v.no_fault;
        },
      )

  resumes-Runs :
      {s : Tasks} {q : Queue CoreEvent} (xs : List CoreEvent) (w : WaitResult)
      → IsRunning s q xs
      → s.task ≡ popping
      → Agrees w s.signalled
      → Runs (turn_ends no_event s (pop_woken (w, q)))
  unfolding pop_woken
  resumes-Runs {s} {q} [] woken v e ok =
      let waits = subst (λ t. ConsumerFits t s.signalled 0) e v.fits in
      let item : 0 < 0 = subst (λ b. ConsumerFits {A = CoreEvent} popping b 0) ok waits in
      absurd (omega arith)
  resumes-Runs {s} {q} (x ∷ xs) woken v e ok =
      let held' = Holds-waiting_empty (dec_int q.waiting_empty) v.held in
      let (rc, got, held) = dequeue-Holds x held' in got-Runs x xs _ v refl rc got held
  resumes-Runs {s} {q} xs timed_out v e ok =
      none-Runs _ v refl (Holds-waiting_empty (dec_int q.waiting_empty) v.held)
  resumes-Runs {s} {q} xs failed v e ok =
      none-Runs _ v refl (Holds-waiting_empty (dec_int q.waiting_empty) v.held)

  CoreStep-Runs :
      {s t : Tasks} {q : Queue CoreEvent} {xs : List CoreEvent}
      → CoreStep no_event s t
      → IsRunning s q xs
      → Runs t
  CoreStep-Runs {s} (sends wait e) v =
      subst (λ c. Runs (sent s e (core_sendevent err_none wait c e.ev e.event_data)))
        (sym v.in_queue) (sent-Runs wait e v)
  CoreStep-Runs {q = q} {xs = xs} (begins e) v = on_queue-Runs _ v (begins-Runs xs v)
  CoreStep-Runs {q = q} {xs = xs} (resumes w e ok) v = on_queue-Runs _ v (resumes-Runs xs w v e ok)

  -- While the core task is in its loop on an empty queue in use, and other threads send it events in any
  -- order and at any time, and its wait ends by a signal or an error: no call comes to a bad pointer, and
  -- `event` has a value at the `switch`. The events that were taken from the queue and came to the `switch`,
  -- and then those in the queue, are those that were accepted, in that order. The task waits without a signal
  -- only at an empty queue, and with one only where there is an event.
  pub CoreReach-IsRunning :
      {s t : Tasks} {q : Queue CoreEvent}
      → IsRunning s q []
      → CoreReach no_event s t
      → (p : Queue CoreEvent) × (xs : List CoreEvent) × IsRunning t p xs
  CoreReach-IsRunning {q = q} v here = (q, [], v)
  CoreReach-IsRunning v (next r st) =
      let (p, xs, v1) = CoreReach-IsRunning v r in CoreStep-Runs st v1
