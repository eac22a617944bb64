-- ===== src/Time/Uptime.antt =====
-- src/arch/posix/lsp_time.c: what `lsp_uptime` gives.
use liblsp.Prelude.{
  ℕ, ◌≡◌, refl, inl, inr, Bool, Bool-cases, true, false, Option, none, some, List, ℤ, is_zero,
}
use liblsp.Time.{uptime}

-- Where `sscanf` leaves its variable alone if it reports no assignment, `lsp_uptime` is always 0: its
-- test for a failed conversion is the wrong way round.
pub uptime_vanishes :
    (opened : Bool) (line : Option (List ℕ)) (sscanf : List ℕ → ℕ → ℤ × ℕ)
    → ((buf : List ℕ) (old : ℕ) → is_zero (sscanf buf old).0 ≡ true → (sscanf buf old).1 ≡ old)
    → uptime opened line sscanf ≡ 0
unfolding uptime
uptime_vanishes false line sscanf h = refl
uptime_vanishes true none sscanf h = refl
uptime_vanishes true (some buf) sscanf h = elim (Bool-cases (is_zero (sscanf buf 0).0)) [
  | inl failed ↦ rw (failed, h buf 0 failed)
  | inr assigned ↦ rw assigned
]
