-- ===== src/Egroup/Threads/Woken.antt =====
-- No wake-up of an event group is lost, and the pieces of a call make up the call.
use Prim.Native.Nat.{bit_and}
use liblsp.Prelude.{
  bit_and-at_most, subst, ◌-◌, ℕ, ◌≡◌, ◌≢◌, refl, true, false, inl, inr, Bool-cases, ◌||◌, sym, ◌∙◌,
  arith, ◌==◌, ltb, some, none, update_here, update_else,
}
use liblsp.Types.{timeout_max}
use liblsp.Egroup.{all_bits, met, leave_bits}
use liblsp.Egroup.Threads.{met-mask}
use liblsp.Egroup.Threads.Waits.{
  Want, Piece, returns, look, start, timed_woken, resume, outside, waiting, Group, set_bits, moved,
  GroupStep, sets, calls, wakes, GroupReach, here, next,
}

-- The bits do not have what the thread `t` waits for, where it waits without a timeout and no
-- broadcast came after its wait began.
abbrev pub IsAsleep : Group → ℕ → Type 0
IsAsleep g t =
    (w : Want)
    → g.pc t ≡ waiting w
    → w.timeout ≡ timeout_max
    → g.signalled t ≡ false
    → met w.wait_all w.bits g.event_bits ≡ false

unmet-mask :
    (v : Want) (e m : ℕ)
    → met v.wait_all v.bits e ≡ false
    → met v.wait_all v.bits (bit_and e m) ≡ false
unmet-mask v e m h = elim (Bool-cases (met v.wait_all v.bits (bit_and e m))) [
  | inl there ↦ ground (arith, h, met-mask v.wait_all v.bits e m there)
  | inr gone ↦ gone
]

-- A return leaves no bits that were not there before.
unmet-returns :
    (w v : Want) (e : ℕ)
    → met v.wait_all v.bits e ≡ false
    → met v.wait_all v.bits (returns w e).1 ≡ false
unfolding leave_bits
unmet-returns w v e h = elim (Bool-cases w.clear_on_exit) [
  | inl all ↦
      let zero_left : bit_and e 0 ≡ 0 = omega (arith, bit_and-at_most 0 e 0 (omega arith)) in
      rw all (subst (λ l. met v.wait_all v.bits l ≡ false) zero_left (unmet-mask v e 0 h))
  | inr some_bits ↦ rw some_bits (unmet-mask v e (all_bits - w.bits) h)
]

-- What a piece leaves at `e` does not satisfy more than `e` did, and where it waits without a timeout it
-- does not satisfy that wait.
record Fits (w : Want) (e : ℕ) (p : Piece) : Type 0 where
  no_more : (v : Want) → met v.wait_all v.bits e ≡ false → met v.wait_all v.bits p.1 ≡ false
  unmet : w.timeout ≡ timeout_max → p.0 ≡ none → met w.wait_all w.bits p.1 ≡ false

returns-Fits : (w : Want) (e : ℕ) → Fits w e (returns w e)
returns-Fits w e = record { no_more = λ v. unmet-returns w v e; unmet = λ t n. ground (arith, n) }

look-Fits : (w : Want) (e : ℕ) → Fits w e (look w e)
unfolding look
look-Fits w e = elim (Bool-cases (met w.wait_all w.bits e)) [
  | inl there ↦ rw there (returns-Fits w e)
  | inr not_there ↦ rw not_there (record { no_more = λ v h. h; unmet = λ t n. not_there })
]

timed-Fits : (w : Want) (e : ℕ) → w.timeout ≢ timeout_max → Fits w e (none, e)
timed-Fits w e ne = record { no_more = λ v h. h; unmet = λ t n. absurd (ne t) }

start-Fits : (w : Want) (e : ℕ) → Fits w e (start w e)
unfolding start
start-Fits w e = elim (Bool-cases (w.timeout == timeout_max)) [
  | inl forever ↦ rw forever (look-Fits w e)
  | inr timed ↦ elim (Bool-cases (ltb 0 w.timeout)) [
    | inl positive ↦ rw (timed, positive) (timed-Fits w e (λ t. ground (arith, t, timed)))
    | inr none_left ↦ rw (timed, none_left) (returns-Fits w e)
  ]
]

resume-Fits :
    (w : Want) (etimedout rc remaining e : ℕ) → Fits w e (resume w etimedout rc remaining e)
unfolding resume timed_woken
resume-Fits w etimedout rc remaining e = elim (Bool-cases (w.timeout == timeout_max)) [
  | inl forever ↦ rw forever (elim (Bool-cases (rc == 0)) [
    | inl woken ↦ rw woken (look-Fits w e)
    | inr failed ↦ rw failed (returns-Fits w e)
  ])
  | inr timed ↦ rw timed (elim (Bool-cases (rc == 0 || rc == etimedout)) [
    | inr failed ↦ rw failed (returns-Fits w e)
    | inl woken ↦ rw woken (elim (Bool-cases (met w.wait_all w.bits e)) [
      | inl there ↦ rw there (returns-Fits w e)
      | inr not_there ↦ rw not_there (elim (Bool-cases (ltb 0 remaining)) [
        | inl some_left ↦ rw some_left (timed-Fits w e (λ t. ground (arith, t, timed)))
        | inr none_left ↦ rw none_left (returns-Fits w e)
      ])
    ])
  ])
]

moved-IsAsleep :
    (t : ℕ) (w : Want) (g : Group) (p : Piece)
    → Fits w g.event_bits p
    → ((u : ℕ) → IsAsleep g u)
    → (u : ℕ) → IsAsleep (moved t w p g) u
moved-IsAsleep t w g (some result, e) fits asleep u v at forever unsignalled =
    elim (Bool-cases (t == u)) [
      | inl same ↦
          let gone : outside ≡ waiting v = sym (update_here g.pc t outside u same) ∙ at in
          ground (arith, gone)
      | inr other ↦
          let before = sym (update_else g.pc t outside u other) ∙ at in
          fits.no_more v (asleep u v before forever unsignalled)
    ]
moved-IsAsleep t w g (none, e) fits asleep u v at forever unsignalled = elim (Bool-cases (t == u)) [
  | inl same ↦
      let wants : waiting w ≡ waiting v = sym (update_here g.pc t (waiting w) u same) ∙ at in
      let one : w ≡ v = ground (arith, wants) in
      subst (λ x. x.timeout ≡ timeout_max → met x.wait_all x.bits e ≡ false) one
        (λ f. fits.unmet f refl) forever
  | inr other ↦
      let before = sym (update_else g.pc t (waiting w) u other) ∙ at in
      let silent = sym (update_else g.signalled t false u other) ∙ unsignalled in
      fits.no_more v (asleep u v before forever silent)
]

GroupStep-IsAsleep :
    (etimedout : ℕ) {g g1 : Group}
    → GroupStep etimedout g g1
    → ((u : ℕ) → IsAsleep g u)
    → (u : ℕ) → IsAsleep g1 u
unfolding set_bits
GroupStep-IsAsleep etimedout (sets b) asleep u =
    λ w at forever unsignalled. ground (arith, unsignalled)
GroupStep-IsAsleep etimedout {g} (calls t w at) asleep u =
    moved-IsAsleep t w g (start w g.event_bits) (start-Fits w g.event_bits) asleep u
GroupStep-IsAsleep etimedout {g} (wakes t w rc remaining at) asleep u =
    moved-IsAsleep t w g (resume w etimedout rc remaining g.event_bits)
      (resume-Fits w etimedout rc remaining g.event_bits) asleep u

GroupReach-IsAsleep : (etimedout : ℕ) {g : Group} → GroupReach etimedout g → (u : ℕ) → IsAsleep g u
GroupReach-IsAsleep etimedout here = λ u w at forever unsignalled. ground (arith, at)
GroupReach-IsAsleep etimedout (next r st) =
    GroupStep-IsAsleep etimedout st (GroupReach-IsAsleep etimedout r)

-- No wake-up is lost: whatever calls of sets and waits, with and without a timeout, the threads of a
-- group make since it was created, and however their waits end, a thread that waits without a timeout
-- while the bits that it waits for are there has been signalled since its wait began, and returns with
-- them if it runs next and its wait ended without an error.
pub never_asleep :
    (etimedout : ℕ) {g : Group}
    → GroupReach etimedout g
    → (t : ℕ) (w : Want) → g.pc t ≡ waiting w
    → w.timeout ≡ timeout_max
    → met w.wait_all w.bits g.event_bits ≡ true
    → (g.signalled t ≡ true)
      × ((remaining : ℕ) → resume w etimedout 0 remaining g.event_bits ≡ returns w g.event_bits)
unfolding resume look
never_asleep etimedout {g} r t w at forever there = (
  elim (Bool-cases (g.signalled t)) [
    | inl signalled ↦ signalled
    | inr silent ↦ ground (arith, there, GroupReach-IsAsleep etimedout r t w at forever silent)
  ],
  λ remaining. rw (forever, there) refl,
)
