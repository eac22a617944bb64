-- ===== src/Queue/Threads/Pair/Safety.antt =====
-- A queue between a pair of threads: the order of its items, and no deadlock.
use liblsp.Prelude.{
  ℕ, suc, ◌<◌, ◌≡◌, refl, ap, sym, subst, append-nil, length-append, ◌∙◌, Bool, true, false, inl,
  inr, List, [], ◌∷◌, ◌++◌, append_assoc, arith, length, ◌⊎◌,
}
use liblsp.Queue.{Queue}
use liblsp.Queue.Ring.{Holds}
use liblsp.Queue.Threads.{pushing, popping, Outcome}
use liblsp.Queue.Threads.Pair.{
  Pair, produce, consume, PairStep, PairReach, push_runs, push_resumes, pop_runs, pop_resumes, here,
  next,
}
use liblsp.Queue.Threads.Pair.Outcomes.{
  ProducerFits, ConsumerFits, IsPair, ConsumerFits-put, ProducerFits-got, Puts, PutsNone, Gets,
  GetsNone, push_outcome, push_resume_outcome, pop_outcome, pop_resume_outcome,
}

module _ {ℓ} {A : Type ℓ} where
  length-snoc : (xs : List A) (x : A) → length (xs ++ x ∷ []) ≡ suc (length xs)
  length-snoc xs x = omega (arith, length-append xs (x ∷ []))

  nothing_moves : {l : List A} (m xs : List A) → l ≡ m ++ xs → l ++ [] ≡ (m ++ []) ++ xs
  nothing_moves {l} m xs e = append-nil l ∙ e ∙ ap (λ k. k ++ xs) (sym (append-nil m))

  -- In a pair a step of either thread leaves a pair.
  produce-IsPair :
      {s : Pair A} {xs : List A} (x : A) (o : Outcome A)
      → IsPair s xs
      → Puts s.queue xs x o ⊎ PutsNone s.queue xs o
      → (ys : List A) × IsPair (produce s o) ys
  produce-IsPair {s} {xs} x o v (inl (p, e, held, size)) =
      subst (λ o. (ys : List A) × IsPair (produce s o) ys) (sym e)
        (
          xs ++ x ∷ [],
          record {
            held = held;
            order =
                ap (λ l. l ++ x ∷ []) v.order
                ∙ append_assoc s.received xs (x ∷ [])
                ∙ ap (λ l. l ++ (xs ++ x ∷ [])) (sym (append-nil s.received));
            producer_fits = refl;
            consumer_fits =
                rw (length-snoc xs x)
                  (ConsumerFits-put s.consumer s.item_signal (length xs) v.consumer_fits);
          },
        )
  produce-IsPair {s} {xs} x o v (inr (p, pc, e, held, size, fits)) =
      subst (λ o. (ys : List A) × IsPair (produce s o) ys) (sym e)
        (
          xs,
          record {
            held = held;
            order = nothing_moves s.received xs v.order;
            producer_fits = rw size fits;
            consumer_fits = v.consumer_fits;
          },
        )

  consume-IsPair :
      {s : Pair A} {xs : List A} (o : Outcome A)
      → IsPair s xs
      → Gets s.queue xs o ⊎ GetsNone s.queue xs o
      → (ys : List A) × IsPair (consume s o) ys
  consume-IsPair {s} {xs} o v (inl (p, x, ys, e, split, held, size)) =
      let fits = v.held.valid.length_in in
      subst (λ o. (ys : List A) × IsPair (consume s o) ys) (sym e)
        (
          ys,
          record {
            held = held;
            order =
                append-nil s.sent
                ∙ v.order
                ∙ ap (λ l. s.received ++ l) split
                ∙ sym (append_assoc s.received (x ∷ []) ys);
            producer_fits = rw size (
                ProducerFits-got s.producer s.room_signal (length ys) s.queue.queue_size
                  (omega (arith, fits, v.held.count, ap length split))
                  (subst (λ l. ProducerFits s.producer s.room_signal (length l) s.queue.queue_size)
                    split v.producer_fits));
            consumer_fits = refl;
          },
        )
  consume-IsPair {s} {xs} o v (inr (p, pc, e, held, size, fits)) =
      subst (λ o. (ys : List A) × IsPair (consume s o) ys) (sym e)
        (
          xs,
          record {
            held = held;
            order = nothing_moves s.received xs v.order;
            producer_fits = rw size v.producer_fits;
            consumer_fits = fits;
          },
        )

  PairStep-IsPair :
      {s t : Pair A} {xs : List A} → PairStep s t → IsPair s xs → (ys : List A) × IsPair t ys
  PairStep-IsPair (push_runs x timeout e) v = produce-IsPair x _ v (push_outcome v.held x timeout)
  PairStep-IsPair {s} {xs = xs} (push_resumes x w e ok) v = produce-IsPair x _ v (
      push_resume_outcome v.held x w s.room_signal ok (
        subst (λ p. ProducerFits p s.room_signal (length xs) s.queue.queue_size) e v.producer_fits))
  PairStep-IsPair {xs = xs} (pop_runs timeout e) v =
      consume-IsPair _ v (pop_outcome xs timeout v.held)
  PairStep-IsPair {s} {xs = xs} (pop_resumes w e ok) v = consume-IsPair _ v (
      pop_resume_outcome xs w s.item_signal v.held ok
        (subst (λ p. ConsumerFits p s.item_signal (length xs)) e v.consumer_fits))

  -- Between one thread that pushes and one that pops, of which neither is woken without a signal, the queue
  -- is in order at every moment, and what was popped so far, and then its items, is what was pushed. A thread
  -- that waits without a signal waits at a full queue to push, or at an empty one to pop; with a signal it
  -- finds room, or an item.
  pub PairReach-IsPair :
      {q : Queue A} {s : Pair A} → Holds q [] → PairReach q s → (xs : List A) × IsPair s xs
  PairReach-IsPair empty here =
      ([], record { held = empty; order = refl; producer_fits = refl; consumer_fits = refl })
  PairReach-IsPair empty (next r st) =
      let (xs, v) = PairReach-IsPair empty r in PairStep-IsPair st v

  one_signalled :
      (x : A) (room item : Bool) (held size : ℕ)
      → 0 < size
      → ProducerFits (pushing x) room held size
      → ConsumerFits {A = A} popping item held
      → ((room ≡ true) × (held < size)) ⊎ ((item ≡ true) × (0 < held))
  one_signalled x true item held size some_room p c = inl (refl, p)
  one_signalled x false true held size some_room p c = inr (refl, c)
  one_signalled x false false held size some_room p c = absurd (omega arith)

  -- No deadlock: where both threads of a pair wait, one of them has been signalled, the producer while there is
  -- room, or the consumer while there is an item.
  pub never_stuck :
      {q : Queue A} {s : Pair A} (x : A)
      → Holds q []
      → PairReach q s
      → s.producer ≡ pushing x
      → s.consumer ≡ popping
      → ((s.room_signal ≡ true) × (s.queue.length < s.queue.queue_size))
        ⊎ ((s.item_signal ≡ true) × (0 < s.queue.length))
  never_stuck {s} x empty r e f =
      let (xs, v) = PairReach-IsPair empty r in
      subst
        (λ n.
          ((s.room_signal ≡ true) × (n < s.queue.queue_size)) ⊎ ((s.item_signal ≡ true) × (0 < n)))
        (sym v.held.count)
        (one_signalled x s.room_signal s.item_signal (length xs) s.queue.queue_size
          v.held.valid.some_room
          (subst (λ p. ProducerFits p s.room_signal (length xs) s.queue.queue_size) e
            v.producer_fits)
          (subst (λ p. ConsumerFits p s.item_signal (length xs)) f v.consumer_fits))
