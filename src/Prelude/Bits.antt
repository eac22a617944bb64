-- ===== src/Prelude/Bits.antt =====
-- Laws of `bit_and` and `bit_or`, digit by digit.
use Prim.Native.Nat.{
  ℕ, zero, suc, ◌+◌, ◌-◌, ◌*◌, ◌/◌, ◌%◌, ◌≤◌, min, max, bit_and, bit_or, digits, bit_and-bitwise,
  bit_or-bitwise,
}
use mathlib.Core.Path.{◌≡◌, refl, ap}
use native.Mathlib.Omega.{arith}

-- The fuel of the digits does not matter, if there is enough of it.
digits_fuel :
    (z : ℕ → ℕ) (f : ℕ → ℕ → ℕ) (n m a b : ℕ) → a ≤ n → a ≤ m → digits z f n a b ≡ digits z f m a b
digits_fuel z f zero zero a b p q = refl
digits_fuel z f zero (suc m) zero b p q = refl
digits_fuel z f (suc n) zero zero b p q = refl
digits_fuel z f (suc n) (suc m) zero b p q = refl
digits_fuel z f zero (suc m) (suc a) b p q = absurd (omega arith)
digits_fuel z f (suc n) zero (suc a) b p q = absurd (omega arith)
digits_fuel z f (suc n) (suc m) (suc a) b p q =
    omega (arith, digits_fuel z f n m (suc a / 2) (b / 2) (omega arith) (omega arith))

digits_step :
    (z : ℕ → ℕ) (f : ℕ → ℕ → ℕ) (a b : ℕ)
    → digits z f (suc a) (suc a) b
      ≡ digits z f (suc a / 2) (suc a / 2) (b / 2) * 2 + f (suc a % 2) (b % 2)
digits_step z f a b =
    omega (arith, digits_fuel z f a (suc a / 2) (suc a / 2) (b / 2) (omega arith) (omega arith))

bit_and_step : (a b : ℕ) → bit_and a b ≡ bit_and (a / 2) (b / 2) * 2 + min (a % 2) (b % 2)
bit_and_step zero b = omega (arith, bit_and-bitwise 0 b, bit_and-bitwise 0 (b / 2))
bit_and_step (suc a) b = omega (
  arith,
  bit_and-bitwise (suc a) b,
  bit_and-bitwise (suc a / 2) (b / 2),
  digits_step (λ b. zero) min a b,
)

bit_or_step : (a b : ℕ) → bit_or a b ≡ bit_or (a / 2) (b / 2) * 2 + max (a % 2) (b % 2)
bit_or_step zero b = omega (arith, bit_or-bitwise 0 b, bit_or-bitwise 0 (b / 2))
bit_or_step (suc a) b = omega (
  arith,
  bit_or-bitwise (suc a) b,
  bit_or-bitwise (suc a / 2) (b / 2),
  digits_step (λ b. b) max a b,
)

zero_digits : (n b : ℕ) → b ≤ n → bit_and b 0 ≡ 0
zero_digits n zero h = bit_and-bitwise 0 0
zero_digits zero (suc b) h = absurd (omega arith)
zero_digits (suc n) (suc b) h =
    omega (arith, bit_and_step (suc b) 0, zero_digits n (suc b / 2) (omega arith))

-- What was joined in is there.
and_or_fuel : (n e b : ℕ) → b ≤ n → bit_and (bit_or e b) b ≡ b
and_or_fuel n e zero h = zero_digits (bit_or e 0) (bit_or e 0) (omega arith)
and_or_fuel zero e (suc b) h = absurd (omega arith)
and_or_fuel (suc n) e (suc b) h =
    let x = bit_or e (suc b) in
    let half : x / 2 ≡ bit_or (e / 2) (suc b / 2) = omega (arith, bit_or_step e (suc b)) in
    omega (
      arith,
      bit_or_step e (suc b),
      bit_and_step x (suc b),
      ap (λ y. bit_and y (suc b / 2)) half,
      and_or_fuel n (e / 2) (suc b / 2) (omega arith),
    )

pub bit_and-bit_or : (e b : ℕ) → bit_and (bit_or e b) b ≡ b
bit_and-bit_or e b = and_or_fuel b e b (omega arith)

-- The numbers of `k` ones.
abbrev pub ones : ℕ → ℕ
ones zero = 0
ones (suc k) = ones k * 2 + 1

-- What was masked out is gone.
pub bit_and-complement : (k e b : ℕ) → b ≤ ones k → bit_and (bit_and e (ones k - b)) b ≡ 0
bit_and-complement zero e b h =
    let none : b ≡ 0 = omega arith in
    rw none (zero_digits (bit_and e 0) (bit_and e 0) (omega arith))
bit_and-complement (suc k) e b h =
    let rest = ones (suc k) - b in
    let x = bit_and e rest in
    let half : x / 2 ≡ bit_and (e / 2) (rest / 2) = omega (arith, bit_and_step e rest) in
    let left : rest / 2 ≡ ones k - b / 2 = omega arith in
    omega (
      arith,
      bit_and_step e rest,
      bit_and_step x b,
      ap (λ y. bit_and y (b / 2)) half,
      ap (λ y. bit_and (bit_and (e / 2) y) (b / 2)) left,
      bit_and-complement k (e / 2) (b / 2) (omega arith),
    )

pub bit_and-zero : (b : ℕ) → bit_and 0 b ≡ 0
bit_and-zero b = bit_and-bitwise 0 b

pub bit_and-at_most : (n e b : ℕ) → b ≤ n → bit_and e b ≤ b
bit_and-at_most n e zero h = omega (arith, zero_digits e e (omega arith))
bit_and-at_most zero e (suc b) h = absurd (omega arith)
bit_and-at_most (suc n) e (suc b) h =
    omega (arith, bit_and_step e (suc b), bit_and-at_most n (e / 2) (suc b / 2) (omega arith))

-- A mask takes bits away only.
pub bit_and-mask : (n e m b : ℕ) → b ≤ n → bit_and (bit_and e m) b ≤ bit_and e b
bit_and-mask n e m zero h = omega (arith, zero_digits (bit_and e m) (bit_and e m) (omega arith))
bit_and-mask zero e m (suc b) h = absurd (omega arith)
bit_and-mask (suc n) e m (suc b) h =
    let x = bit_and e m in
    let half : x / 2 ≡ bit_and (e / 2) (m / 2) = omega (arith, bit_and_step e m) in
    omega (
      arith,
      bit_and_step e m,
      bit_and_step x (suc b),
      bit_and_step e (suc b),
      ap (λ y. bit_and y (suc b / 2)) half,
      bit_and-mask n (e / 2) (m / 2) (suc b / 2) (omega arith),
    )

-- Bits outside `b` do not matter to what is in it.
pub bit_and-join : (n e s b : ℕ) → b ≤ n → bit_and s b ≡ 0 → bit_and (bit_or e s) b ≡ bit_and e b
bit_and-join n e s zero h out =
    omega
      (arith, zero_digits (bit_or e s) (bit_or e s) (omega arith), zero_digits e e (omega arith))
bit_and-join zero e s (suc b) h out = absurd (omega arith)
bit_and-join (suc n) e s (suc b) h out =
    let x = bit_or e s in
    let half : x / 2 ≡ bit_or (e / 2) (s / 2) = omega (arith, bit_or_step e s) in
    let rest : bit_and (s / 2) (suc b / 2) ≡ 0 = omega (arith, bit_and_step s (suc b)) in
    omega (
      arith,
      bit_or_step e s,
      bit_and_step s (suc b),
      bit_and_step x (suc b),
      bit_and_step e (suc b),
      ap (λ y. bit_and y (suc b / 2)) half,
      bit_and-join n (e / 2) (s / 2) (suc b / 2) (omega arith) rest,
    )
