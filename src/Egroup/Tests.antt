-- ===== src/Egroup/Tests.antt =====
-- The theorems about waits, where another thread sets a bit at each wake-up.
use Prim.Native.Nat.{bit_and, bit_or}
use liblsp.Prelude.{◌⊎◌, ℕ, zero, suc, ◌*◌, ◌<◌, ◌≡◌, refl, true, false, some, ok, arith}
use liblsp.Types.{err_none, timeout_max}
use liblsp.Egroup.{egroup_set, met, Wake, egroup_wait}
use liblsp.Egroup.Set.{wait-set}
use liblsp.Egroup.Wait.{Found, EndsBy, bits_after, wait_returns, timed_wait_ends}

-- The first wake-up sets bit 0, the second one bit 1, and no other comes.
abbrev two_setters : Wake
two_setters zero timeout e = (0, bit_or e 1)
two_setters (suc zero) timeout e = (0, bit_or e 2)
two_setters (suc (suc i)) timeout e = (110, e)

unfound : (k : ℕ) → k < 2 → ¬ Found true 3 (bits_after two_setters 4 k)
unfound zero h found = omega (arith, found)
unfound (suc zero) h found = omega (arith, found)
unfound (suc (suc k)) h found = absurd (omega arith)

fine : (k : ℕ) → k < 2 → (two_setters k timeout_max (bits_after two_setters 4 k)).0 ≡ 0
fine zero h = refl
fine (suc zero) h = refl
fine (suc (suc k)) h = absurd (omega arith)

wait_returns_example :
    egroup_wait two_setters true 3 110 (λ i. 0) err_none 0 2 false timeout_max 4 ≡ ok (some 7, 4)
wait_returns_example =
    wait_returns two_setters true 3 4 110 (λ i. 0) 2 2 0 false (omega arith) unfound fine refl

abbrev wait_ms : ℕ
wait_ms = 100

-- The clock goes on by 30 at each wait, so that the fifth wait is the last, and finds bits 0, 1 and 2.
timed_wait_ends_example :
    (e1 : ℕ) × (egroup_wait two_setters true 11 110 (λ i. i * 30) err_none 0 5 true 100 4
      ≡ ok (some e1, 0))
    × (((wait_ms ≡ 0) × (e1 ≡ 4))
        ⊎ ((0 < wait_ms) × EndsBy two_setters true 11 4 110 (λ i. i * 30) 100 0 4 (ok e1)))
timed_wait_ends_example =
    timed_wait_ends two_setters true 11 4 110 (λ i. i * 30) 4 5 0 100 true (omega arith)
      (omega arith) (omega arith)

wait-set_example :
    (left : ℕ) × (egroup_wait two_setters false 6 110 (λ i. 0) err_none 0 0 false timeout_max 15
      ≡ ok (some 15, left))
    × (bit_and 15 6 ≡ 6)
    × (bit_and left 6 ≡ 0)
    × (met false 6 left ≡ false)
unfolding egroup_set
wait-set_example = wait-set false 6 (omega arith) (omega arith) two_setters 110 (λ i. 0) 0 false 9
