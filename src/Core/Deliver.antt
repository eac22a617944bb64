-- ===== src/Core/Deliver.antt =====
-- src/lsp_core.c: from `lsp_core_sendevent` to the loop of the core task.
use liblsp.Prelude.{
  ℕ, zero, suc, ◌+◌, ◌≡◌, refl, subst, false, some, List, [], ◌∷◌, ◌++◌, append_assoc, append-nil,
  arith, length, take, Run, ok, and_then, length-append,
}
use liblsp.Types.{err_none, err_queue_full}
use liblsp.Queue.{Queue, WaitResult, push, pop}
use liblsp.Queue.Ring.{Holds}
use liblsp.Queue.Fifo.{push_room, push_full, pop_item, push-queue_size}
use liblsp.Core.{CoreEvent, Core, core_sendevent, core_turn, core_turns, next_event, next_sleep}

-- The variables of lsp_core.c with the queue `q` in use.
abbrev pub in_use : Queue CoreEvent → Core
in_use q = record { evqueue = some q; freed = false }

-- What the senders are told of the events `evs` where there is room for so many.
abbrev pub replies : (room : ℕ) → List CoreEvent → List ℕ
replies room [] = []
replies zero (e ∷ evs) = err_queue_full ∷ replies zero evs
replies (suc room) (e ∷ evs) = err_none ∷ replies room evs

-- Calls of `lsp_core_sendevent`, one behind the other.
unfoldable pub send_all :
    (Queue CoreEvent → WaitResult × Queue CoreEvent) → List CoreEvent → Core → Run (List ℕ × Core)
send_all wait [] core = ok ([], core)
send_all wait (e ∷ evs) core =
    and_then (core_sendevent err_none wait core e.ev e.event_data)
      (λ sent. and_then (send_all wait evs sent.1) (λ rest. ok (sent.0 ∷ rest.0, rest.1)))

module _ (wait : Queue CoreEvent → WaitResult × Queue CoreEvent) where
  pub sendevent_lem :
      (q : Queue CoreEvent) (e : CoreEvent)
      → core_sendevent err_none wait (in_use q) e.ev e.event_data
        ≡ ok ((push err_none wait q e 0).0, in_use (push err_none wait q e 0).1)
  unfolding core_sendevent
  sendevent_lem q e = refl

  send_all-Holds :
      (evs : List CoreEvent) (room : ℕ) {q : Queue CoreEvent} {xs : List CoreEvent}
      → Holds q xs
      → length xs + room ≡ q.queue_size
      → (q' : Queue CoreEvent) × (send_all wait evs (in_use q) ≡ ok (replies room evs, in_use q'))
        × Holds q' (xs ++ take room evs)
  unfolding send_all
  send_all-Holds [] zero {q} {xs} h e = (q, refl, rw (append-nil xs) h)
  send_all-Holds [] (suc room) {q} {xs} h e = (q, refl, rw (append-nil xs) h)
  send_all-Holds (e ∷ evs) zero {q} {xs} h full =
      let (q', sent, held) = send_all-Holds evs zero h full in
      (q', rw (sendevent_lem q e, push_full wait e h (omega arith), sent), held)
  send_all-Holds (e ∷ evs) (suc room) {q} {xs} h free =
      let (rc, more) = push_room wait 0 e h (omega arith) in
      let (q', sent, held) =
        send_all-Holds evs room more
          (omega (arith, length-append xs (e ∷ []), push-queue_size wait q e)) in
      (
        q',
        rw (sendevent_lem q e, rc, sent),
        subst (Holds q') (append_assoc xs (e ∷ []) (take room evs)) held,
      )

  core_turn_lem :
      (no_event : ℕ) (event : CoreEvent) (q : Queue CoreEvent) (x : CoreEvent)
      → (pop err_none wait q next_sleep).0 ≡ err_none
      → (pop err_none wait q next_sleep).1 ≡ some x
      → core_turn no_event err_none wait event q ≡ (some x, (pop err_none wait q next_sleep).2)
  unfolding core_turn next_event
  core_turn_lem no_event event q x rc item = rw (rc, item)

  core_turns-Holds :
      (no_event : ℕ) (event : CoreEvent) {q : Queue CoreEvent} (xs : List CoreEvent)
      → Holds q xs
      → (p : Queue CoreEvent) × (core_turns no_event err_none wait (length xs) event q
          ≡ some (xs, p))
        × Holds p []
  unfolding core_turns
  core_turns-Holds no_event event {q} [] h = (q, refl, h)
  core_turns-Holds no_event event {q} (x ∷ xs) h =
      let (rc, item, held) = pop_item wait next_sleep x h in
      let (p, handled, done) = core_turns-Holds no_event x xs held in
      (p, rw (core_turn_lem no_event event q x rc item, handled), done)

  -- Where the lock is always taken, of the events sent to an empty queue in order its capacity's number are accepted, the others are refused as
  -- LSP_ERR_QUEUE_FULL, and none is a fault; in as many turns the core task then takes the accepted
  -- ones in the order in which they were sent, and leaves the queue empty.
  pub core_turns-sent :
      (no_event : ℕ) (event : CoreEvent) (evs : List CoreEvent) {q : Queue CoreEvent}
      → Holds q []
      → (q' p : Queue CoreEvent) × (send_all wait evs (in_use q)
          ≡ ok (replies q.queue_size evs, in_use q'))
        × (core_turns no_event err_none wait (length (take q.queue_size evs)) event q'
            ≡ some (take q.queue_size evs, p))
        × Holds p []
  core_turns-sent no_event event evs {q} h =
      let (q', sent, held) = send_all-Holds evs q.queue_size h (omega arith) in
      let (p, handled, done) = core_turns-Holds no_event event (take q.queue_size evs) held in
      (q', p, sent, handled, done)
