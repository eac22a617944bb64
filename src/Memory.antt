-- ===== src/Memory.antt =====
-- src/arch/posix/lsp_memory.c: the accounting of allocations, as the build with DEBUG has it.
pub mod Free
pub mod Record
mod Tests
use liblsp.Prelude.{
  ℕ, zero, suc, ◌+◌, ◌*◌, ◌%◌, ◌-◌, Bool, true, false, Option, none, some, ◌==◌, if◌then◌else◌, Ptr,
  null, Run, ok, fault, out_of_fuel, and_then, access, update, u32_mod, size_mod,
}
use liblsp.LspList.{Links, mapping, add, first, after}

-- The list of `struct block`, by their addresses, and the count of bytes.
pub record Blocks : Type 0 where
  pub links : Links
  pub size : Ptr → ℕ
  pub ptr : Ptr → Ptr
  pub alloc_bytes : ℕ

-- A block after free: an access to it is a fault.
abbrev pub unmapping : Ptr → Links → Links
unmapping p m = record m { mapped = update m.mapped p false }

module _ (head : Ptr) where
  -- `lsp_malloc`: `b` and `data` are what the two calls of malloc give.
  unfoldable pub malloc : (b data_ptr : Ptr) → (len : ℕ) → Blocks → Run (Ptr × Blocks)
  malloc b data_ptr len h =
      if b == null
      then fault
      else and_then (access (add b head (mapping b h.links))) (λ m. ok (
        data_ptr,
        record {
          links = m;
          size = update h.size b len;
          ptr = update h.ptr b data_ptr;
          alloc_bytes = (h.alloc_bytes + len) % u32_mod;
        },
      ))

  -- `lsp_calloc`
  unfoldable pub calloc : (b data_ptr : Ptr) → (nmemb size : ℕ) → Blocks → Run (Ptr × Blocks)
  calloc b data_ptr nmemb size h = malloc b data_ptr ((nmemb * size) % size_mod) h

  -- The body of the loop in `lsp_free`, which does not take the block out of the list.
  unfoldable pub drop_block : (p b : Ptr) → Blocks → Blocks
  drop_block p b h =
      if h.ptr b == p
      then record h {
        links = unmapping b h.links;
        alloc_bytes = (h.alloc_bytes + (u32_mod - h.size b % u32_mod)) % u32_mod;
      }
      else h

  unfoldable pub free_loop : (p : Ptr) → (fuel : ℕ) → Option Ptr → Blocks → Run Blocks
  free_loop p fuel none h = ok h
  free_loop p zero (some b) h = out_of_fuel
  free_loop p (suc fuel) (some b) h = elim (after head b (drop_block p b h).links) [
    | none ↦ fault
    | some c ↦ free_loop p fuel c (drop_block p b h)
  ]

  -- `lsp_free`
  unfoldable pub free : (p : Ptr) → (fuel : ℕ) → Blocks → Run Blocks
  free p fuel h = elim (first head h.links) [ none ↦ fault | some c ↦ free_loop p fuel c h ]
