-- ===== src/Egroup/Set.antt =====
-- `lsp_egroup_set` against `lsp_egroup_wait`: what one sets the other finds, and once.
use Prim.Native.Nat.{bit_and}
use liblsp.Prelude.{
  ℕ, ◌≤◌, ◌≡◌, ◌≢◌, ap, Bool, true, false, some, arith, not, ok, bit_and-bit_or, bit_and-complement,
  bit_and-zero, test_of_eq, test_of_ne,
}
use liblsp.Types.{err_none, timeout_max}
use liblsp.Egroup.{Wake, all_bits, without, met, egroup_set, leave_bits, egroup_wait}
use liblsp.Egroup.Wait.{Found-met, kept, wait_returns}

met-egroup_set :
    (wait_all : Bool) (bits e : ℕ)
    → bits ≢ 0
    → met wait_all bits (egroup_set err_none bits e) ≡ true
unfolding met egroup_set
met-egroup_set true bits e ne = test_of_eq _ _ (bit_and-bit_or e bits)
met-egroup_set false bits e ne =
    ap not (test_of_ne _ 0 (λ z. ne (omega (arith, z, bit_and-bit_or e bits))))

pub unmet_of_zero :
    (wait_all : Bool) (bits e : ℕ) → bits ≢ 0 → bit_and e bits ≡ 0 → met wait_all bits e ≡ false
unfolding met
unmet_of_zero true bits e ne z = test_of_ne _ _ (λ same. ne (omega (arith, z, same)))
unmet_of_zero false bits e ne z = ap not (test_of_eq _ 0 z)

module _ (wait_all : Bool) (bits : ℕ) (ne : bits ≢ 0) (word : bits ≤ all_bits) where
  pub met-leave_bits :
      (clear_on_exit : Bool) (e : ℕ) → met wait_all bits (leave_bits bits clear_on_exit e) ≡ false
  unfolding leave_bits
  met-leave_bits true e = unmet_of_zero wait_all bits 0 ne (bit_and-zero bits)
  met-leave_bits false e =
      unmet_of_zero wait_all bits (without e bits) ne (bit_and-complement 32 e bits word)

  none_kept : (clear_on_exit : Bool) (e : ℕ) → bit_and (kept bits clear_on_exit e) bits ≡ 0
  none_kept true e = bit_and-zero bits
  none_kept false e = bit_and-complement 32 e bits word

  -- A set that comes before a wait for the same bits is not lost, and counts once. The lock is taken for both,
  -- and the bits are not none: the wait returns at once, with all bits of the set among those that it
  -- returns; none of the bits waited for stays, so
  -- that what stays does not end such a wait again.
  pub wait-set :
      (wake : Wake) (etimedout : ℕ) (clock : ℕ → ℕ) (now : ℕ) (clear_on_exit : Bool) (e : ℕ)
      → let found = egroup_set err_none bits e in
        (left : ℕ) × (egroup_wait wake wait_all bits etimedout clock err_none now 0 clear_on_exit
            timeout_max found
          ≡ ok (some found, left))
        × (bit_and found bits ≡ bits)
        × (bit_and left bits ≡ 0)
        × (met wait_all bits left ≡ false)
  unfolding egroup_set
  wait-set wake etimedout clock now clear_on_exit e =
      let e1 = egroup_set err_none bits e in
      (
        kept bits clear_on_exit e1,
        wait_returns wake wait_all bits e1 etimedout clock 0 0 now clear_on_exit (omega arith)
            (λ k h. absurd (omega arith)) (λ k h. absurd (omega arith))
            (Found-met wait_all bits e1 (met-egroup_set wait_all bits e ne)),
        bit_and-bit_or e bits,
        none_kept clear_on_exit e1,
        unmet_of_zero wait_all bits (kept bits clear_on_exit e1) ne (none_kept clear_on_exit e1),
      )
