-- ===== src/Prelude/Words.antt =====
-- Machine words of LP64: `size_t`, pointers, `int` and `uint32_t`, with their wrap-around.
use mathlib.Core.Bool.{Bool, false, ◌||◌}
use liblsp.Prelude.Tests.{◌==◌, leb, if◌then◌else◌}
use Prim.Native.Nat.{ℕ, suc, ◌+◌, ◌-◌, ◌%◌, ◌^◌}

-- A C integer before its conversion to an unsigned type; `negsuc n` is -(n + 1).
pub data ℤ : Type 0 where
  pos : ℕ → ℤ
  negsuc : ℕ → ℤ

abbrev pub is_zero : ℤ → Bool
is_zero (pos n) = n == 0
is_zero (negsuc n) = false

abbrev pub size_mod : ℕ
size_mod = 2 ^ 64

abbrev pub u32_mod : ℕ
u32_mod = 2 ^ 32

-- Addition and subtraction of `size_t` values, and of addresses.
abbrev pub add_size : ℕ → ℕ → ℕ
add_size a b = (a + b) % size_mod

abbrev pub sub_size : ℕ → ℕ → ℕ
sub_size a b = (a + size_mod - b) % size_mod

-- The conversion of an `int` to `size_t`.
abbrev pub to_size : ℤ → ℕ
to_size (pos n) = n % size_mod
to_size (negsuc n) = (size_mod - suc n) % size_mod

-- The conversion of an `int` to `uint32_t`.
abbrev pub to_u32 : ℤ → ℕ
to_u32 (pos n) = n % u32_mod
to_u32 (negsuc n) = (u32_mod - suc n) % u32_mod

-- An `int` as its bit pattern: one step up or down, the test for at most 0, and the conversion to
-- `size_t`.
abbrev pub inc_int : ℕ → ℕ
inc_int w = (w + 1) % u32_mod

abbrev pub dec_int : ℕ → ℕ
dec_int w = (w + u32_mod - 1) % u32_mod

abbrev pub is_nonpos : ℕ → Bool
is_nonpos w = w == 0 || leb (2 ^ 31) w

abbrev pub int_to_size : ℕ → ℕ
int_to_size w = if leb (2 ^ 31) w then w + size_mod - u32_mod else w
