-- ===== src/Egroup/Threads/Served.antt =====
-- How often the bits that were set are found by the threads of an event group.
use Prim.Native.Nat.{bit_and}
use liblsp.Prelude.{
  ℕ, suc, ◌+◌, ◌≤◌, ◌≡◌, ◌≢◌, refl, ap, sym, subst, Bool, true, inl, inr, Bool-cases, ◌⊎◌, arith,
  ◌==◌, ◌||◌, ltb, some, none,
}
use liblsp.Types.{timeout_max}
use liblsp.Egroup.{all_bits, met}
use liblsp.Egroup.Threads.{History, pending, served_once}
use liblsp.Egroup.Threads.Waits.{
  Want, Piece, returns, look, start, timed_woken, resume, outside, waiting, Group, created,
  set_bits, moved,
}

-- The thread `t` may run the piece `p` of the call `w`: from its beginning, or from the end of a wait.
pub data Runs (etimedout : ℕ) (g : Group) (t : ℕ) (w : Want) : Piece → Type 0 where
  begins : g.pc t ≡ outside → Runs etimedout g t w (start w g.event_bits)
  goes_on :
      (rc remaining : ℕ)
      → g.pc t ≡ waiting w
      → Runs etimedout g t w (resume w etimedout rc remaining g.event_bits)

-- The steps of a group since it was created, with `n` sets of some of `bits`, and `k` calls for `bits` that
-- returned with what they waited for. Other threads set other bits, and wait for what they like.
pub data Trace (etimedout : ℕ) (wait_all : Bool) (bits : ℕ) : (n k : ℕ) → Group → Type 0 where
  begun : Trace etimedout wait_all bits 0 0 created
  sets_some :
      {n k : ℕ} {g : Group} (s : ℕ)
      → Trace etimedout wait_all bits n k g
      → bit_and s bits ≢ 0
      → Trace etimedout wait_all bits (suc n) k (set_bits s g)
  sets_others :
      {n k : ℕ} {g : Group} (s : ℕ)
      → Trace etimedout wait_all bits n k g
      → bit_and s bits ≡ 0
      → Trace etimedout wait_all bits n k (set_bits s g)
  finds :
      {n k : ℕ} {g : Group} (t : ℕ) (w : Want) (p : Piece)
      → Trace etimedout wait_all bits n k g
      → Runs etimedout g t w p
      → w.bits ≡ bits
      → met wait_all bits g.event_bits ≡ true
      → p.0 ≡ some g.event_bits
      → Trace etimedout wait_all bits n (suc k) (moved t w p g)
  runs :
      {n k : ℕ} {g : Group} (t : ℕ) (w : Want) (p : Piece)
      → Trace etimedout wait_all bits n k g
      → Runs etimedout g t w p
      → Trace etimedout wait_all bits n k (moved t w p g)

-- A piece ends in a wait, with the bits as they were, or returns.
abbrev Ends : Want → ℕ → Piece → Type 0
Ends w e p = (p ≡ (none, e)) ⊎ (p ≡ returns w e)

look-Ends : (w : Want) (e : ℕ) → Ends w e (look w e)
unfolding look
look-Ends w e = elim (Bool-cases (met w.wait_all w.bits e)) [
  | inl there ↦ inr (rw there refl)
  | inr not_there ↦ inl (rw not_there refl)
]

start-Ends : (w : Want) (e : ℕ) → Ends w e (start w e)
unfolding start
start-Ends w e = elim (Bool-cases (w.timeout == timeout_max)) [
  | inl forever ↦ rw forever (look-Ends w e)
  | inr timed ↦ elim (Bool-cases (ltb 0 w.timeout)) [
    | inl positive ↦ inl (rw (timed, positive) refl)
    | inr none_left ↦ inr (rw (timed, none_left) refl)
  ]
]

timed_woken-Ends :
    (w : Want) (etimedout rc remaining e : ℕ) → Ends w e (timed_woken w etimedout rc remaining e)
unfolding timed_woken
timed_woken-Ends w etimedout rc remaining e = elim (Bool-cases (rc == 0 || rc == etimedout)) [
  | inr failed ↦ inr (rw failed refl)
  | inl woken ↦ elim (Bool-cases (met w.wait_all w.bits e)) [
    | inl there ↦ inr (rw (woken, there) refl)
    | inr not_there ↦ elim (Bool-cases (ltb 0 remaining)) [
      | inl some_left ↦ inl (rw (woken, not_there, some_left) refl)
      | inr none_left ↦ inr (rw (woken, not_there, none_left) refl)
    ]
  ]
]

resume-Ends :
    (w : Want) (etimedout rc remaining e : ℕ) → Ends w e (resume w etimedout rc remaining e)
unfolding resume
resume-Ends w etimedout rc remaining e = elim (Bool-cases (w.timeout == timeout_max)) [
  | inr timed ↦ rw timed (timed_woken-Ends w etimedout rc remaining e)
  | inl forever ↦ elim (Bool-cases (rc == 0)) [
    | inl woken ↦ rw (forever, woken) (look-Ends w e)
    | inr failed ↦ inr (rw (forever, failed) refl)
  ]
]

Runs-Ends :
    {etimedout : ℕ} {g : Group} {t : ℕ} {w : Want} {p : Piece}
    → Runs etimedout g t w p
    → Ends w g.event_bits p
Runs-Ends {g = g} {w = w} (begins at) = start-Ends w g.event_bits
Runs-Ends {etimedout} {g} {w = w} (goes_on rc remaining at) =
    resume-Ends w etimedout rc remaining g.event_bits

module _ (etimedout : ℕ) (wait_all : Bool) (bits : ℕ) where
  moved-History :
      {n k : ℕ} (g : Group) (t : ℕ) (w : Want) (p : Piece)
      → Ends w g.event_bits p
      → History wait_all bits n k g.event_bits
      → History wait_all bits n k (moved t w p g).event_bits
  moved-History {n} {k} g t w p (inl waits) h =
      subst (λ q. History wait_all bits n k (moved t w q g).event_bits) (sym waits) h
  moved-History {n} {k} g t w p (inr ends) h =
      subst (λ q. History wait_all bits n k (moved t w q g).event_bits) (sym ends)
        (History.returned w.bits w.clear_on_exit h)

  found-History :
      {n k : ℕ} (g : Group) (t : ℕ) (w : Want) (p : Piece)
      → Ends w g.event_bits p
      → w.bits ≡ bits
      → met wait_all bits g.event_bits ≡ true
      → p.0 ≡ some g.event_bits
      → History wait_all bits n k g.event_bits
      → History wait_all bits n (suc k) (moved t w p g).event_bits
  found-History {n} {k} g t w p (inl waits) same there some_bits h =
      absurd (ground (arith, some_bits, ap (λ q. q.0) waits))
  found-History {n} {k} g t w p (inr ends) same there some_bits h =
      subst (λ q. History wait_all bits n (suc k) (moved t w q g).event_bits) (sym ends)
        (rw same (History.served w.clear_on_exit h there))

  Trace-History :
      {n k : ℕ} {g : Group}
      → Trace etimedout wait_all bits n k g
      → History wait_all bits n k g.event_bits
  unfolding set_bits
  Trace-History begun = History.created
  Trace-History (sets_some s r some_bits) = History.set_some s (Trace-History r) some_bits
  Trace-History (sets_others s r no_bits) = History.set_others s (Trace-History r) no_bits
  Trace-History (finds {g = g} t w p r run same there some_bits) =
      found-History g t w p (Runs-Ends run) same there some_bits (Trace-History r)
  Trace-History (runs {g = g} t w p r run) = moved-History g t w p (Runs-Ends run) (Trace-History r)

  -- Bits that were set are found by one wait at most, whatever the threads of a group do and however their
  -- waits end: of the calls of `lsp_egroup_wait` for the same bits, not none, no more return with what
  -- they wait for than there were sets of some of these bits since the group was created, and one less
  -- while the bits are still there.
  pub found_once :
      {n k : ℕ} {g : Group}
      → bits ≢ 0
      → bits ≤ all_bits
      → Trace etimedout wait_all bits n k g
      → k + pending (met wait_all bits g.event_bits) ≤ n
  found_once ne word r = served_once wait_all bits ne word (Trace-History r)
