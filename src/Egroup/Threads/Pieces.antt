-- ===== src/Egroup/Threads/Pieces.antt =====
-- The pieces of a call of `lsp_egroup_wait` make up the call.
use liblsp.Prelude.{
  ℕ, zero, suc, ◌+◌, ◌%◌, ◌≡◌, refl, true, false, inl, inr, Bool-cases, ◌==◌, ltb, none, Run, ok,
  and_then, u32_mod, ◌||◌, if◌then◌else◌,
}
use liblsp.Types.{err_none, timeout_max}
use liblsp.Egroup.{Wake, met, wait_forever, wait_until, egroup_wait, time_left}
use liblsp.Egroup.Threads.Waits.{Want, Piece, returns, look, start, timed_woken, resume, pieces}

module _ (wake : Wake) (w : Want) (etimedout : ℕ) (clock : ℕ → ℕ) (max_time : ℕ) where
  abbrev finish : Run ℕ → Run Piece
  finish r = and_then r (λ e. ok (returns w e))

  -- One wait without a timeout, and one with.
  forever-next :
      (fuel i e : ℕ)
      → (w.timeout == timeout_max) ≡ true
      → let (rc, e1) = wake i timeout_max e in
        pieces wake w etimedout clock max_time (suc fuel) i (none, e)
        ≡ pieces wake w etimedout clock max_time fuel
            (suc i)
            (if rc == 0 then look w e1 else returns w e1)
  unfolding resume
  forever-next fuel i e forever = rw (pieces, forever) refl

  timed-next :
      (fuel i e : ℕ)
      → (w.timeout == timeout_max) ≡ false
      → let left = time_left wake w.wait_all w.bits max_time (clock i) in
        let (rc, e1) = wake i left e in
        pieces wake w etimedout clock max_time (suc fuel) i (none, e)
        ≡ pieces wake w etimedout clock max_time fuel (suc i) (timed_woken w etimedout rc left e1)
  unfolding resume
  timed-next fuel i e timed = rw (pieces, timed) refl

  forever-pieces :
      (fuel i e : ℕ)
      → (w.timeout == timeout_max) ≡ true
      → finish (wait_forever wake w.wait_all w.bits fuel i e)
        ≡ pieces wake w etimedout clock max_time fuel i (look w e)
  unfolding look wait_forever
  forever-pieces zero i e forever = elim (Bool-cases (met w.wait_all w.bits e)) [
    | inl there ↦ rw there refl
    | inr not_there ↦ rw not_there refl
  ]
  forever-pieces (suc fuel) i e forever =
      let (rc, e1) = wake i timeout_max e in
      let rest = forever-pieces fuel (suc i) e1 forever in
      elim (Bool-cases (met w.wait_all w.bits e)) [
        | inl there ↦ rw (wait_forever, there) refl
        | inr not_there ↦ elim (Bool-cases (rc == 0)) [
          | inl woken ↦ rw (wait_forever, not_there, forever-next fuel i e forever, woken) rest
          | inr failed ↦ rw (wait_forever, not_there, forever-next fuel i e forever, failed) refl
        ]
      ]

  -- Where the loop goes on with `remaining`.
  abbrev on_time : (remaining e : ℕ) → Piece
  on_time remaining e = if ltb 0 remaining then (none, e) else returns w e

  timed-pieces :
      (fuel i remaining e : ℕ)
      → (w.timeout == timeout_max) ≡ false
      → finish (wait_until wake w.wait_all w.bits etimedout clock max_time fuel i remaining e)
        ≡ pieces wake w etimedout clock max_time fuel i (on_time remaining e)
  unfolding timed_woken wait_until
  timed-pieces zero i remaining e timed = elim (Bool-cases (ltb 0 remaining)) [
    | inl some_left ↦ rw some_left refl
    | inr none_left ↦ rw none_left refl
  ]
  timed-pieces (suc fuel) i remaining e timed =
      let left = time_left wake w.wait_all w.bits max_time (clock i) in
      let (rc, e1) = wake i left e in
      let rest = timed-pieces fuel (suc i) left e1 timed in
      let step = timed-next fuel i e timed in
      elim (Bool-cases (ltb 0 remaining)) [
        | inr none_left ↦ rw (wait_until, none_left) refl
        | inl some_left ↦ elim (Bool-cases (rc == 0 || rc == etimedout)) [
          | inr failed ↦ rw (wait_until, some_left, step, failed) refl
          | inl woken ↦ elim (Bool-cases (met w.wait_all w.bits e1)) [
            | inl there ↦ rw (wait_until, some_left, step, woken, there) refl
            | inr not_there ↦ rw (wait_until, some_left, step, woken, not_there) rest
          ]
        ]
      ]

-- A call of `lsp_egroup_wait` that gets the mutex is what its pieces make in their order, up to its first
-- wait, between two waits, and from its last one on: in what it returns and leaves, and in the waits that it
-- comes to, for every timeout and whatever the waits end with.
pub egroup_wait-pieces :
    (wake : Wake) (w : Want) (etimedout : ℕ) (clock : ℕ → ℕ) (now fuel e : ℕ)
    → egroup_wait wake w.wait_all w.bits etimedout clock err_none now fuel w.clear_on_exit w.timeout
        e
      ≡ pieces wake w etimedout clock ((now + w.timeout) % u32_mod) fuel 0 (start w e)
unfolding egroup_wait start
egroup_wait-pieces wake w etimedout clock now fuel e =
    let max_time = (now + w.timeout) % u32_mod in
    elim (Bool-cases (w.timeout == timeout_max)) [
      | inl forever ↦ rw forever (forever-pieces wake w etimedout clock max_time fuel 0 e forever)
      | inr timed ↦ rw timed (elim (Bool-cases (ltb 0 w.timeout)) [
        | inl positive ↦
            let h = timed-pieces wake w etimedout clock max_time fuel 0 w.timeout e timed in
            rw positive (rw positive at h)
        | inr none_left ↦ rw none_left refl
      ])
    ]
