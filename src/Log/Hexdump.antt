-- ===== src/Log/Hexdump.antt =====
-- src/port/generic/lsp_log.c: the bytes that a dump reads.
use liblsp.Prelude.{
  ℕ, zero, suc, ◌+◌, ◌-◌, ◌*◌, ◌/◌, ◌%◌, ◌^◌, ◌≤◌, ◌<◌, ◌≡◌, ap, ◌∷◌, ◌++◌, ltb, leb, arith, ok,
  true, false, if◌then◌else◌, ◌==◌,
}
use liblsp.Types.{sizeof_ptr, aligned_size}
use liblsp.Log.{hexdump, hexdump_row}

hexdump_row-add : (a b i : ℕ) → hexdump_row (a + b) i ≡ hexdump_row a i ++ hexdump_row b (i + a)
unfolding hexdump_row
hexdump_row-add zero b i =
    let none : 0 + b ≡ b = omega arith in let here : i + 0 ≡ i = omega arith in rw (none, here)
hexdump_row-add (suc a) b i =
    let more : suc a + b ≡ suc (a + b) = omega arith in
    let on : i + suc a ≡ suc i + a = omega arith in
    rw (more, on) (ap (λ l. i ∷ l) (hexdump_row-add a b (suc i)))

hexdump_rows :
    (fuel rows len i : ℕ)
    → rows < fuel
    → len ≤ i + rows * sizeof_ptr
    → i + rows * sizeof_ptr < len + sizeof_ptr
    → len ≤ 2 ^ 31 - sizeof_ptr
    → hexdump fuel len i ≡ ok (hexdump_row (rows * sizeof_ptr) i)
unfolding hexdump hexdump_row
hexdump_rows zero rows len i h0 h1 h2 h3 = absurd (omega arith)
hexdump_rows (suc fuel) zero len i h0 h1 h2 h3 =
    let done : ltb i len ≡ false = ground arith in rw (hexdump, done)
hexdump_rows (suc fuel) (suc rows) len i h0 h1 h2 h3 =
    let more : ltb i len ≡ true = ground arith in
    let fits : leb (2 ^ 31) (i + sizeof_ptr) ≡ false = ground arith in
    let size : suc rows * sizeof_ptr ≡ sizeof_ptr + rows * sizeof_ptr = omega arith in
    rw (
      hexdump,
      more,
      fits,
      hexdump_rows fuel rows len (i + sizeof_ptr) (omega arith) (omega arith) (omega arith) h3,
      size,
      hexdump_row-add sizeof_ptr (rows * sizeof_ptr) i,
    )

-- With more fuel than bytes, a dump of fewer than 2^31 - 7 bytes reads each of them in order, and goes on to the
-- next multiple of the pointer size, up to seven bytes behind the last.
pub hexdump-aligned_size :
    (fuel len : ℕ)
    → len < fuel
    → len ≤ 2 ^ 31 - sizeof_ptr
    → hexdump fuel len 0 ≡ ok (hexdump_row (aligned_size len) 0)
unfolding aligned_size
hexdump-aligned_size fuel len h0 h1 =
    hexdump_rows fuel (len / sizeof_ptr + (if len % sizeof_ptr == 0 then 0 else 1)) len 0
      (ground arith) (ground arith) (ground arith) h1
