-- ===== src/Egroup/Threads.antt =====
-- src/arch/posix/lsp_egroup.c with several threads: what they make of the bits. `lsp_egroup_set`, and what a
-- call of `lsp_egroup_wait` does between its last look at the bits and its return, are one step each, since
-- the mutex is held; before that look a waiting thread changes nothing.
pub mod Waits
pub mod Woken
pub mod Pieces
pub mod Served
mod Tests
use Prim.Native.Nat.{bit_and}
use liblsp.Prelude.{
  ℕ, suc, ◌+◌, ◌-◌, ◌≤◌, ◌≡◌, ◌≢◌, ap, Bool, true, false, not, arith, if◌then◌else◌, bit_and-join,
  bit_and-mask, bit_and-at_most, bit_and-zero, test_of_eq, test_of_ne, eq_of_test, ◌==◌,
}
use liblsp.Types.{err_none}
use liblsp.Egroup.{all_bits, met, egroup_set, leave_bits}
use liblsp.Egroup.Set.{unmet_of_zero, met-leave_bits}

-- The bits `e` that a group may have, after `n` sets of some of `bits`, and `k` waits for `bits` that found
-- what they waited for. Other threads set other bits, and wait for what they like: each wait clears bits
-- as it returns, also one that found nothing.
pub data History (wait_all : Bool) (bits : ℕ) : (n k e : ℕ) → Type 0 where
  created : History wait_all bits 0 0 0
  set_some :
      {n k e : ℕ} (s : ℕ)
      → History wait_all bits n k e
      → bit_and s bits ≢ 0
      → History wait_all bits (suc n) k (egroup_set err_none s e)
  set_others :
      {n k e : ℕ} (s : ℕ)
      → History wait_all bits n k e
      → bit_and s bits ≡ 0
      → History wait_all bits n k (egroup_set err_none s e)
  served :
      {n k e : ℕ} (clear_on_exit : Bool)
      → History wait_all bits n k e
      → met wait_all bits e ≡ true
      → History wait_all bits n (suc k) (leave_bits bits clear_on_exit e)
  returned :
      {n k e : ℕ} (others : ℕ) (clear_on_exit : Bool)
      → History wait_all bits n k e
      → History wait_all bits n k (leave_bits others clear_on_exit e)

-- One where the bits would satisfy a wait.
abbrev pub pending : Bool → ℕ
pending b = if b then 1 else 0

met-join :
    (wait_all : Bool) (bits e s : ℕ)
    → bit_and s bits ≡ 0
    → met wait_all bits (egroup_set err_none s e) ≡ met wait_all bits e
unfolding met egroup_set
met-join true bits e s out = ap (λ x. x == bits) (bit_and-join bits e s bits (omega arith) out)
met-join false bits e s out = ap (λ x. not (x == 0)) (bit_and-join bits e s bits (omega arith) out)

pub met-mask :
    (wait_all : Bool) (bits e m : ℕ)
    → met wait_all bits (bit_and e m) ≡ true
    → met wait_all bits e ≡ true
unfolding met
met-mask true bits e m h = test_of_eq _ _ (
    omega (
      arith,
      eq_of_test _ _ h,
      bit_and-mask bits e m bits (omega arith),
      bit_and-at_most bits e bits (omega arith),
    ))
met-mask false bits e m h =
    ap not (test_of_ne _ 0 (λ z. ground (arith, h, z, bit_and-mask bits e m bits (omega arith))))

module _ (wait_all : Bool) (bits : ℕ) (ne : bits ≢ 0) (word : bits ≤ all_bits) where
  pending-leave_bits :
      (others : ℕ) (clear_on_exit : Bool) (e : ℕ)
      → pending (met wait_all bits (leave_bits others clear_on_exit e))
        ≤ pending (met wait_all bits e)
  unfolding leave_bits
  pending-leave_bits others true e =
      rw (unmet_of_zero wait_all bits 0 ne (bit_and-zero bits)) (omega arith)
  pending-leave_bits others false e = ground (arith, met-mask wait_all bits e (all_bits - others))

  -- Bits that were set are found by one wait at most: of the waits for the same bits, not none, no more find
  -- what they wait for than there were sets of some of these bits since the group was created, and one
  -- less while the bits are still there.
  pub served_once :
      {n k e : ℕ} → History wait_all bits n k e → k + pending (met wait_all bits e) ≤ n
  served_once History.created =
      rw (unmet_of_zero wait_all bits 0 ne (bit_and-zero bits)) (omega arith)
  served_once (History.set_some s h some) = ground (arith, served_once h)
  served_once (History.set_others {e = e} s h out) =
      rw (met-join wait_all bits e s out) (served_once h)
  served_once (History.served {e = e} clear_on_exit h there) =
      ground (arith, served_once h, met-leave_bits wait_all bits ne word clear_on_exit e)
  served_once (History.returned {e = e} others clear_on_exit h) =
      omega (arith, served_once h, pending-leave_bits others clear_on_exit e)
