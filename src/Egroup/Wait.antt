-- ===== src/Egroup/Wait.antt =====
-- `lsp_egroup_wait`: when it returns, and with which bits.
use Prim.Native.Nat.{bit_and}
use liblsp.Prelude.{
  ◌-◌, ◌⊎◌, inl, inr, not, test_of_eq, subst, sym, Run, ℕ, zero, suc, ◌+◌, ◌%◌, ◌≤◌, ◌<◌, ◌≡◌, ◌≢◌,
  refl, ap, Bool, true, false, inl, inr, Bool-cases, eq_of_test, some, arith, ◌==◌, ltb, ok,
  u32_mod, ◌||◌, test_of_ne,
}
use liblsp.Types.{err_none, timeout_max}
use liblsp.Egroup.{Wake, met, wait_forever, wait_until, time_left, leave_bits, egroup_wait}

-- The bits after so many waits that do not time out.
abbrev pub bits_after : Wake → ℕ → ℕ → ℕ
bits_after wake e zero = e
bits_after wake e (suc i) = (wake i timeout_max (bits_after wake e i)).1

-- The bits that a thread waits for are there: all of them, or any.
abbrev pub Found : (wait_all : Bool) → (bits event_bits : ℕ) → Type 0
Found true bits event_bits = bit_and event_bits bits ≡ bits
Found false bits event_bits = bit_and event_bits bits ≢ 0

met-Found : (wait_all : Bool) (bits e : ℕ) → Found wait_all bits e → met wait_all bits e ≡ true
unfolding met
met-Found true bits e h = test_of_eq _ _ h
met-Found false bits e h = ap not (test_of_ne _ 0 h)

pub Found-met : (wait_all : Bool) (bits e : ℕ) → met wait_all bits e ≡ true → Found wait_all bits e
unfolding met
Found-met true bits e h = eq_of_test _ _ h
Found-met false bits e h = ground (arith, h)

not_met : (wait_all : Bool) (bits e : ℕ) → ¬ Found wait_all bits e → met wait_all bits e ≡ false
not_met wait_all bits e h = elim (Bool-cases (met wait_all bits e)) [
  | inl is_met ↦ absurd (h (Found-met wait_all bits e is_met))
  | inr unmet ↦ unmet
]

not_Found : (wait_all : Bool) (bits e : ℕ) → met wait_all bits e ≡ false → ¬ Found wait_all bits e
not_Found wait_all bits e h found = ground (arith, h, met-Found wait_all bits e found)

-- The bits that stay: none, or those not waited for.
abbrev pub kept : (bits : ℕ) → (clear_on_exit : Bool) → (event_bits : ℕ) → ℕ
kept bits true event_bits = 0
kept bits false event_bits = bit_and event_bits (u32_mod - 1 - bits)

pub leave_bits-kept :
    (bits : ℕ) (clear_on_exit : Bool) (e : ℕ)
    → leave_bits bits clear_on_exit e ≡ kept bits clear_on_exit e
unfolding leave_bits
leave_bits-kept bits true e = refl
leave_bits-kept bits false e = refl

module _ (wake : Wake) (wait_all : Bool) (bits e : ℕ) (etimedout : ℕ) (clock : ℕ → ℕ) where
  wait_forever-met :
      (j fuel i : ℕ)
      → i ≤ j
      → j ≤ i + fuel
      → ((k : ℕ) → k < j → met wait_all bits (bits_after wake e k) ≡ false)
      → ((k : ℕ) → k < j → (wake k timeout_max (bits_after wake e k)).0 ≡ 0)
      → met wait_all bits (bits_after wake e j) ≡ true
      → wait_forever wake wait_all bits fuel i (bits_after wake e i) ≡ ok (bits_after wake e j)
  unfolding wait_forever
  wait_forever-met j zero i lo hi unmet fine reached =
      let same : i ≡ j = omega arith in rw (same, wait_forever, reached)
  wait_forever-met j (suc fuel) i lo hi unmet fine reached = elim (Bool-cases (i == j)) [
    | inl same ↦
        let at : i ≡ j = eq_of_test i j same in
        rw (wait_forever, at, reached) (ap (λ k. ok (bits_after wake e k)) at)
    | inr other ↦
        let below : i < j = ground arith in
        rw (wait_forever, unmet i below, fine i below)
          (wait_forever-met j fuel (suc i) below (omega arith) unmet fine reached)
  ]

  -- A wait without a timeout, where the lock is taken, returns at the first wake-up, or at once,
  -- that finds the bits there, all of them or any as it was asked to, if no wait fails before. It returns the
  -- bits of that moment; none of them stays if it clears on exit, else all but those that it waited for.
  -- Enough fuel is one unit for each wake-up before.
  pub wait_returns :
      (j fuel now : ℕ) (clear_on_exit : Bool)
      → j ≤ fuel
      → ((k : ℕ) → k < j → ¬ Found wait_all bits (bits_after wake e k))
      → ((k : ℕ) → k < j → (wake k timeout_max (bits_after wake e k)).0 ≡ 0)
      → Found wait_all bits (bits_after wake e j)
      → egroup_wait wake wait_all bits etimedout clock err_none now fuel clear_on_exit timeout_max e
        ≡ ok (some (bits_after wake e j), kept bits clear_on_exit (bits_after wake e j))
  unfolding egroup_wait
  wait_returns j fuel now clear_on_exit h unfound fine found =
      let unmet : (k : ℕ) → k < j → met wait_all bits (bits_after wake e k) ≡ false =
        λ k l. not_met wait_all bits (bits_after wake e k) (unfound k l) in
      let reached = met-Found wait_all bits (bits_after wake e j) found in
      rw
        (
          wait_forever-met j fuel 0 (omega arith) (omega arith) unmet fine reached,
          leave_bits-kept bits clear_on_exit (bits_after wake e j),
        )
        refl

  wait_until_spent :
      (max_time fuel i remaining e0 : ℕ)
      → ltb 0 remaining ≡ false
      → wait_until wake wait_all bits etimedout clock max_time fuel i remaining e0 ≡ ok e0
  unfolding wait_until
  wait_until_spent max_time zero i remaining e0 over = rw over refl
  wait_until_spent max_time (suc fuel) i remaining e0 over = rw (wait_until, over) refl

  -- The bits after so many waits with a timeout that is over at `max_time`.
  abbrev pub bits_by : (max_time : ℕ) → ℕ → ℕ
  bits_by max_time zero = e
  bits_by max_time (suc i) =
      (wake i (time_left wake wait_all bits max_time (clock i)) (bits_by max_time i)).1

  -- How the wait with the number `k` ends.
  abbrev pub wait_rc : (max_time k : ℕ) → ℕ
  wait_rc max_time k =
      (wake k (time_left wake wait_all bits max_time (clock k)) (bits_by max_time k)).0

  -- The wait with the number `k` is the last one of a call: it finds the bits, or it fails by another error
  -- than a timeout, or it began at the end of the timeout or later.
  abbrev pub IsLast : (max_time k : ℕ) → Type 0
  IsLast max_time k =
      Found wait_all bits (bits_by max_time (suc k))
      ⊎ ((wait_rc max_time k ≢ 0) × (wait_rc max_time k ≢ etimedout))
      ⊎ (max_time ≤ clock k)

  -- Of the waits from `i` to `j`, one is the last, and none before it finds the bits.
  abbrev pub EndsBy : (max_time i j : ℕ) → Run ℕ → Type 0
  EndsBy max_time i j result =
      (k : ℕ) × (i ≤ k)
      × (k ≤ j)
      × (result ≡ ok (bits_by max_time (suc k)))
      × ((m : ℕ) → i ≤ m → m < k → ¬ Found wait_all bits (bits_by max_time (suc m)))
      × IsLast max_time k

  wait_until-EndsBy :
      (j max_time fuel i remaining : ℕ)
      → i ≤ j
      → j < i + fuel
      → 0 < remaining
      → max_time ≤ clock j
      → EndsBy max_time i j (
          wait_until wake wait_all bits etimedout clock max_time fuel i remaining
            (bits_by max_time i))
  unfolding wait_until
  wait_until-EndsBy j max_time zero i remaining lo hi some_left late = absurd (omega arith)
  wait_until-EndsBy j max_time (suc fuel) i remaining lo hi some_left late =
      let e1 = bits_by max_time (suc i) in
      let rc = wait_rc max_time i in
      let left = time_left wake wait_all bits max_time (clock i) in
      let go : ltb 0 remaining ≡ true = ground (arith, some_left) in
      elim (Bool-cases (rc == 0 || rc == etimedout)) [
        | inr failed ↦ (
          i,
          omega arith,
          lo,
          rw (wait_until, go, failed) refl,
          λ m l h. absurd (omega arith),
          inr (inl (λ z. ground (arith, failed, z), λ z. ground (arith, failed, z))),
        )
        | inl woken ↦ elim (Bool-cases (met wait_all bits e1)) [
          | inl there ↦ (
            i,
            omega arith,
            lo,
            rw (wait_until, go, woken, there) refl,
            λ m l h. absurd (omega arith),
            inl (Found-met wait_all bits e1 there),
          )
          | inr not_there ↦ elim (Bool-cases (ltb 0 left)) [
            | inr over ↦ (
              i,
              omega arith,
              lo,
              rw (wait_until, go, woken, not_there)
                  (wait_until_spent max_time fuel (suc i) left e1 over),
              λ m l h. absurd (omega arith),
              inr (inr (ground (arith, over))),
            )
            | inl more ↦
                let on : i < j = elim (Bool-cases (i == j)) [
                  | inl same ↦
                      let at = ap clock (eq_of_test i j same) in
                      absurd (ground (arith, more, late, at))
                  | inr other ↦ ground (arith, other, lo)
                ] in
                let (k, from, to, e2, before, last) =
                  wait_until-EndsBy j max_time fuel (suc i) left on (omega arith)
                    (ground (arith, more)) late in
                (
                  k,
                  omega arith,
                  to,
                  rw (wait_until, go, woken, not_there) e2,
                  λ m l h. elim (Bool-cases (m == i)) [
                    | inl first ↦
                        subst (λ n. ¬ Found wait_all bits (bits_by max_time (suc n)))
                          (sym (eq_of_test m i first)) (not_Found wait_all bits e1 not_there)
                    | inr later ↦ before m (ground (arith, later, l)) h
                  ],
                  last,
                )
          ]
        ]
      ]

  -- A wait with a timeout, where the lock is taken, returns by the first wait that begins when the clock has
  -- come to the end of the timeout, whatever the waits end with. Without any wait, where the timeout is 0, it
  -- returns the bits that it finds. Else it returns those at the end of its last wait, which is the first one
  -- that finds the bits there, unless one fails before by another error than a timeout, or begins at the end
  -- of the timeout or later. None of the bits stays if it clears on exit, else all but those that it waited
  -- for. Enough fuel is one unit for each wait up to then.
  pub timed_wait_ends :
      (j fuel now timeout : ℕ) (clear_on_exit : Bool)
      → timeout ≢ timeout_max
      → j < fuel
      → (now + timeout) % u32_mod ≤ clock j
      → (e1 : ℕ) × (egroup_wait wake wait_all bits etimedout clock err_none now fuel clear_on_exit
            timeout e
          ≡ ok (some e1, kept bits clear_on_exit e1))
        × (((timeout ≡ 0) × (e1 ≡ e))
            ⊎ ((0 < timeout) × EndsBy ((now + timeout) % u32_mod) 0 j (ok e1)))
  unfolding egroup_wait
  timed_wait_ends j fuel now timeout clear_on_exit ne h late = elim (Bool-cases (ltb 0 timeout)) [
    | inr zero_timeout ↦ (
      e,
      rw (test_of_ne timeout timeout_max ne, zero_timeout, leave_bits-kept bits clear_on_exit e)
          refl,
      inl (ground (arith, zero_timeout), refl),
    )
    | inl positive ↦
        let max_time = (now + timeout) % u32_mod in
        let some_time : 0 < timeout = ground (arith, positive) in
        let (k, from, to, ends, before, last) =
          wait_until-EndsBy j max_time fuel 0 timeout (omega arith) (omega arith) some_time late in
        let e1 = bits_by max_time (suc k) in
        (
          e1,
          rw
              (
                test_of_ne timeout timeout_max ne,
                positive,
                ends,
                leave_bits-kept bits clear_on_exit e1,
              )
              refl,
          inr (some_time, (k, from, to, refl, before, last)),
        )
  ]
