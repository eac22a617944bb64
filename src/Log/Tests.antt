-- ===== src/Log/Tests.antt =====
-- The theorem about the text of a dump, for three bytes.
use liblsp.Prelude.{
  ℕ, ◌+◌, ◌/◌, ◌%◌, ◌<◌, ◌≡◌, refl, List, [], ◌∷◌, ok, arith, Ptr, if◌then◌else◌, ltb,
}
use liblsp.Types.{aligned_size}
use liblsp.Log.{Printf, hexdump, hexdump_row, hexdump_text}
use liblsp.Log.Text.{IsHex, hexdump_text-tells}

-- Five bytes behind the three are read.
three_bytes : hexdump 4 3 0 ≡ ok (0 ∷ 1 ∷ 2 ∷ 3 ∷ 4 ∷ 5 ∷ 6 ∷ 7 ∷ [])
unfolding hexdump hexdump_row
three_bytes = refl

-- Digits by their values, and addresses and offsets as they are.
abbrev digits : Printf
digits = record { pointer = λ p. p ∷ []; hex4 = λ i. i ∷ []; hex2 = λ b. b / 16 ∷ b % 16 ∷ [] }

two_digits : {a b c d : ℕ} → a ∷ b ∷ [] ≡ c ∷ d ∷ [] → (a ≡ c) × (b ≡ d)
two_digits e = (ground (arith, e), ground (arith, e))

digits-IsHex : IsHex digits.hex2
digits-IsHex = record {
  two = λ b h. refl;
  tells = λ b c h g e. let (upper, lower) = two_digits e in omega (arith, upper, lower);
}

-- The address of a byte, as a byte, everywhere or up to 5000.
abbrev addresses : Ptr → ℕ
addresses p = p % 256

addresses-byte : (p : Ptr) → addresses p < 256
addresses-byte p = omega arith

abbrev near : Ptr → ℕ
near p = if ltb p 5000 then p % 256 else 0

near-byte : (p : Ptr) → near p < 256
near-byte p = ground arith

abbrev title : List ℕ
title = 104 ∷ 10 ∷ []

hexdump_text-tells_example :
    (t1 : List ℕ) × (t2 : List ℕ) × (hexdump_text digits addresses 4096 4 title 3 ≡ ok t1)
    × (hexdump_text digits near 4096 4 title 3 ≡ ok t2)
    × (t1 ≡ t2 → (k : ℕ) → k < aligned_size 3 → addresses (4096 + k) ≡ near (4096 + k))
hexdump_text-tells_example =
    hexdump_text-tells digits digits-IsHex 4096 addresses near addresses-byte near-byte 4 3 title
      (omega arith) (omega arith)
