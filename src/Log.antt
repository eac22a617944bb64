-- ===== src/Log.antt =====
-- src/port/generic/lsp_log.c: which bytes `_lsp_hexdump` reads and what it prints, and which messages
-- `lsp_log` prints.
pub mod Hexdump
pub mod Text
mod Tests
use liblsp.Prelude.{
  ℕ, zero, suc, ◌+◌, ◌^◌, Bool, List, [], ◌∷◌, ◌++◌, ltb, leb, if◌then◌else◌, Run, ok, fault,
  out_of_fuel, and_then, Ptr,
}
use liblsp.Types.{sizeof_ptr}

-- The inner loop: so many bytes from offset `i`.
unfoldable pub hexdump_row : (left i : ℕ) → List ℕ
hexdump_row zero i = []
hexdump_row (suc left) i = i ∷ hexdump_row left (suc i)

-- The loop over the rows, from offset `i`: the offsets of the bytes read. An `int` that goes over its
-- bound is a fault.
unfoldable pub hexdump : (fuel : ℕ) → (len i : ℕ) → Run (List ℕ)
hexdump zero len i = out_of_fuel
hexdump (suc fuel) len i =
    let rest = hexdump fuel len (i + sizeof_ptr) in
    if ltb i len
    then and_then (if leb (2 ^ 31) (i + sizeof_ptr) then fault else rest)
        (λ read. ok (hexdump_row sizeof_ptr i ++ read))
    else ok []

-- What `printf` makes of `%p`, of `%04X` and of `%02X`. A text is a list of characters, by their numbers.
pub record Printf : Type 0 where
  pub pointer : Ptr → List ℕ
  pub hex4 : ℕ → List ℕ
  pub hex2 : ℕ → List ℕ

module _ (fmt : Printf) (mem : Ptr → ℕ) (ptr : Ptr) where
  -- What the inner loop prints: so many bytes from offset `i`, each with a space behind.
  unfoldable pub cells : (left i : ℕ) → List ℕ
  cells zero i = []
  cells (suc left) i = fmt.hex2 (mem (ptr + i)) ++ 32 ∷ cells left (suc i)

  -- A row: the address, the offset, the bytes, and the end of the line.
  unfoldable pub row_text : (i : ℕ) → List ℕ
  row_text i =
      fmt.pointer (ptr + i) ++ 32 ∷ 32 ∷ fmt.hex4 i ++ 58 ∷ 32 ∷ 32 ∷ cells sizeof_ptr i ++ 10 ∷ []

  -- What the loop over the rows prints, from offset `i`.
  unfoldable pub rows_text : (fuel : ℕ) → (len i : ℕ) → Run (List ℕ)
  rows_text zero len i = out_of_fuel
  rows_text (suc fuel) len i =
      let rest = rows_text fuel len (i + sizeof_ptr) in
      if ltb i len
      then and_then (if leb (2 ^ 31) (i + sizeof_ptr) then fault else rest)
          (λ text. ok (row_text i ++ text))
      else ok []

  -- `_lsp_hexdump`; `title` is what `vprintf` makes of its format and arguments.
  unfoldable pub hexdump_text : (fuel : ℕ) → (title : List ℕ) → (len : ℕ) → Run (List ℕ)
  hexdump_text fuel title len = and_then (rows_text fuel len 0) (λ text. ok (title ++ text))

-- The test of `lsp_log`, with LSP_LOGL as the highest level printed.
unfoldable pub prints : (highest logl : ℕ) → Bool
prints highest logl = leb logl highest

-- `lsp_log` with `_lsp_log`: what it prints, where `text` is what `vprintf` makes of its format and arguments.
unfoldable pub log : (highest logl : ℕ) → (text : List ℕ) → List ℕ
log highest logl text = if prints highest logl then text else []
