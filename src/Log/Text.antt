-- ===== src/Log/Text.antt =====
-- The text of a dump.
use liblsp.Prelude.{
  ℕ, zero, suc, ◌+◌, ◌-◌, ◌*◌, ◌/◌, ◌%◌, ◌^◌, ◌≤◌, ◌<◌, ◌≡◌, refl, sym, ◌∙◌, List, [], ◌∷◌, ◌++◌,
  ltb, leb, arith, ok, true, false, if◌then◌else◌, ◌==◌, Ptr, length, append_assoc, inl, inr,
  Bool-cases, eq_of_test, subst,
}
use liblsp.Types.{sizeof_ptr, aligned_size}
use liblsp.Log.{Printf, cells, row_text, rows_text, hexdump_text}

append-cancel :
    (xs ys : List ℕ) {r s : List ℕ}
    → length xs ≡ length ys
    → xs ++ r ≡ ys ++ s
    → (xs ≡ ys) × (r ≡ s)
append-cancel [] [] n e = (refl, e)
append-cancel [] (y ∷ ys) n e = absurd (omega (arith, n))
append-cancel (x ∷ xs) [] n e = absurd (omega (arith, n))
append-cancel (x ∷ xs) (y ∷ ys) n e =
    let (same, rest) = append-cancel xs ys (omega (arith, n)) (ground (arith, e)) in
    (ground (arith, e, same), rest)

-- A byte takes two digits, and its digits tell which it is.
pub record IsHex (hex2 : ℕ → List ℕ) : Type 0 where
  pub two : (b : ℕ) → b < 256 → length (hex2 b) ≡ 2
  pub tells : (b c : ℕ) → b < 256 → c < 256 → hex2 b ≡ hex2 c → b ≡ c

module _ (fmt : Printf) (hex : IsHex fmt.hex2) (ptr : Ptr) (m1 m2 : Ptr → ℕ)
    (bytes1 : (p : Ptr) → m1 p < 256) (bytes2 : (p : Ptr) → m2 p < 256) where
  cells-cancel :
      (n i : ℕ) {r s : List ℕ}
      → cells fmt m1 ptr n i ++ r ≡ cells fmt m2 ptr n i ++ s
      → ((k : ℕ) → k < n → m1 (ptr + (i + k)) ≡ m2 (ptr + (i + k))) × (r ≡ s)
  unfolding cells
  cells-cancel zero i e = (λ k h. absurd (omega arith), e)
  cells-cancel (suc n) i {r} {s} e =
      let b1 = m1 (ptr + i) in
      let b2 = m2 (ptr + i) in
      let (digits, behind) =
        append-cancel (fmt.hex2 b1) (fmt.hex2 b2)
          (hex.two b1 (bytes1 _) ∙ sym (hex.two b2 (bytes2 _)))
          (sym (append_assoc (fmt.hex2 b1) (32 ∷ cells fmt m1 ptr n (suc i)) r)
            ∙ e
            ∙ append_assoc (fmt.hex2 b2) (32 ∷ cells fmt m2 ptr n (suc i)) s) in
      let (others, rest) = cells-cancel n (suc i) (ground (arith, behind)) in
      (
        λ k h. elim (Bool-cases (k == 0)) [
          | inl first ↦
              let here : i + k ≡ i = omega (arith, eq_of_test k 0 first) in
              rw here (hex.tells b1 b2 (bytes1 _) (bytes2 _) digits)
          | inr later ↦
              let on : suc i + (k - 1) ≡ i + k = ground arith in
              rw⁻¹ on (others (k - 1) (ground arith))
        ],
        rest,
      )

  -- What comes before the bytes of a row.
  abbrev margin : (i : ℕ) → List ℕ
  margin i = fmt.pointer (ptr + i) ++ 32 ∷ 32 ∷ fmt.hex4 i ++ 58 ∷ 32 ∷ 32 ∷ []

  row_text-append :
      (m : Ptr → ℕ) (i : ℕ) (r : List ℕ)
      → row_text fmt m ptr i ++ r ≡ margin i ++ (cells fmt m ptr sizeof_ptr i ++ 10 ∷ r)
  unfolding row_text
  row_text-append m i r = simp append_assoc

  row_text-cancel :
      (i : ℕ) {r s : List ℕ}
      → row_text fmt m1 ptr i ++ r ≡ row_text fmt m2 ptr i ++ s
      → ((k : ℕ) → k < sizeof_ptr → m1 (ptr + (i + k)) ≡ m2 (ptr + (i + k))) × (r ≡ s)
  row_text-cancel i {r} {s} e =
      let (same, behind) =
        append-cancel (margin i) (margin i) {r = cells fmt m1 ptr sizeof_ptr i ++ 10 ∷ r}
          {s = cells fmt m2 ptr sizeof_ptr i ++ 10 ∷ s} refl
          (sym (row_text-append m1 i r) ∙ e ∙ row_text-append m2 i s) in
      let (bytes, rest) = cells-cancel sizeof_ptr i {r = 10 ∷ r} {s = 10 ∷ s} behind in
      (bytes, ground (arith, rest))

  -- So many rows from offset `i`.
  abbrev rows_of : (m : Ptr → ℕ) → (rows i : ℕ) → List ℕ
  rows_of m zero i = []
  rows_of m (suc rows) i = row_text fmt m ptr i ++ rows_of m rows (i + sizeof_ptr)

  rows_text-rows_of :
      (m : Ptr → ℕ) (fuel rows len i : ℕ)
      → rows < fuel
      → len ≤ i + rows * sizeof_ptr
      → i + rows * sizeof_ptr < len + sizeof_ptr
      → len ≤ 2 ^ 31 - sizeof_ptr
      → rows_text fmt m ptr fuel len i ≡ ok (rows_of m rows i)
  unfolding rows_text
  rows_text-rows_of m zero rows len i h0 h1 h2 h3 = absurd (omega arith)
  rows_text-rows_of m (suc fuel) zero len i h0 h1 h2 h3 =
      let done : ltb i len ≡ false = ground arith in rw (rows_text, done) refl
  rows_text-rows_of m (suc fuel) (suc rows) len i h0 h1 h2 h3 =
      let more : ltb i len ≡ true = ground arith in
      let fits : leb (2 ^ 31) (i + sizeof_ptr) ≡ false = ground arith in
      rw
        (
          rows_text,
          more,
          fits,
          rows_text-rows_of m fuel rows len (i + sizeof_ptr) (omega arith) (omega arith)
              (omega arith) h3,
        )
        refl

  rows_of-tells :
      (rows i : ℕ)
      → rows_of m1 rows i ≡ rows_of m2 rows i
      → (k : ℕ) → k < rows * sizeof_ptr
      → m1 (ptr + (i + k)) ≡ m2 (ptr + (i + k))
  rows_of-tells zero i e k h = absurd (omega arith)
  rows_of-tells (suc rows) i e k h =
      let (bytes, rest) = row_text-cancel i e in
      elim (Bool-cases (ltb k sizeof_ptr)) [
        | inl here ↦ bytes k (ground arith)
        | inr behind ↦
            let on : (i + sizeof_ptr) + (k - sizeof_ptr) ≡ i + k = ground arith in
            rw⁻¹ on (rows_of-tells rows (i + sizeof_ptr) rest (k - sizeof_ptr) (ground arith))
      ]

  -- With more fuel than bytes, the dump of fewer than 2^31 - 7 bytes ends, and its text tells the bytes:
  -- two memories of which the dumps from one address print the same text have the same bytes there, up to
  -- the next multiple of the pointer size. `%02X` makes two digits of a byte, which tell it.
  pub hexdump_text-tells :
      (fuel len : ℕ) (title : List ℕ)
      → len < fuel
      → len ≤ 2 ^ 31 - sizeof_ptr
      → (t1 : List ℕ) × (t2 : List ℕ) × (hexdump_text fmt m1 ptr fuel title len ≡ ok t1)
        × (hexdump_text fmt m2 ptr fuel title len ≡ ok t2)
        × (t1 ≡ t2 → (k : ℕ) → k < aligned_size len → m1 (ptr + k) ≡ m2 (ptr + k))
  unfolding hexdump_text aligned_size
  hexdump_text-tells fuel len title h0 h1 =
      let rows = len / sizeof_ptr + (if len % sizeof_ptr == 0 then 0 else 1) in
      let ends = λ (m : Ptr → ℕ).
        rows_text-rows_of m fuel rows len 0 (ground arith) (ground arith) (ground arith) h1 in
      (
        title ++ rows_of m1 rows 0,
        title ++ rows_of m2 rows 0,
        rw (ends m1) refl,
        rw (ends m2) refl,
        λ e k h.
            let none_before : 0 + k ≡ k = omega arith in
            subst (λ j. m1 (ptr + j) ≡ m2 (ptr + j)) none_before
              (rows_of-tells rows 0 (append-cancel title title refl e).1 k h),
      )
