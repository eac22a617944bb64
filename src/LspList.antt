-- ===== src/LspList.antt =====
-- src/include/lsp_list.h: the intrusive circular list. A node is named by its address, `container_of`
-- maps a node to its container one to one, so both go by that address.
pub mod Ring
pub mod Insert
pub mod Delete
pub mod Walk
pub mod Mirror
pub mod Mapping
pub mod Back
pub mod Sample
mod Tests
use liblsp.Prelude.{
  ℕ, zero, suc, Bool, true, false, ◌&&◌, not, Option, none, some, ◌==◌, if◌then◌else◌, ◌>>=◌, Ptr,
  null, Run, ok, fault, out_of_fuel, update,
}

-- The memory of the `lsp_list_t` nodes. `mapped p` says that a node lies at `p`.
pub record Links : Type 0 where
  pub mapped : Ptr → Bool
  pub next : Ptr → Ptr
  pub prev : Ptr → Ptr

-- A block that `lsp_malloc` returns: mapped, and with the contents that it happens to have.
abbrev pub mapping : Ptr → Links → Links
mapping p m = record m { mapped = update m.mapped p true }

-- An access through NULL, or to where no node lies, is a fault.
abbrev pub valid : Links → Ptr → Bool
valid m p = not (p == null) && m.mapped p

-- `p->next`, `p->prev` as values, and as targets of an assignment.
abbrev pub next_of : Links → Ptr → Option Ptr
next_of m p = if valid m p then some (m.next p) else none

abbrev pub prev_of : Links → Ptr → Option Ptr
prev_of m p = if valid m p then some (m.prev p) else none

abbrev pub set_next : Ptr → Ptr → Links → Option Links
set_next p q m = if valid m p then some (record m { next = update m.next p q }) else none

abbrev pub set_prev : Ptr → Ptr → Links → Option Links
set_prev p q m = if valid m p then some (record m { prev = update m.prev p q }) else none

-- `lsp_list_head_init`
pub head_init : Ptr → Links → Option Links
head_init head m = do m1 ← set_next head head m; set_prev head head m1

-- `_lsp_list_add`
pub add_between : (n prev next : Ptr) → Links → Option Links
add_between n prev next m = do
  m1 ← set_prev next n m
  m2 ← set_next n next m1
  m3 ← set_prev n prev m2
  set_next prev n m3

-- `lsp_list_add`: to the front.
pub add : Ptr → Ptr → Links → Option Links
add n head m = do next ← next_of m head; add_between n head next m

-- `lsp_list_add_tail`: to the back.
pub add_tail : Ptr → Ptr → Links → Option Links
add_tail n head m = do prev ← prev_of m head; add_between n prev head m

pub insert_after : Ptr → Ptr → Links → Option Links
insert_after n node m = do next ← next_of m node; add_between n node next m

pub insert_before : Ptr → Ptr → Links → Option Links
insert_before n node m = do prev ← prev_of m node; add_between n prev node m

-- `lsp_list_del`. The second assignment reads `n` again.
pub del : Ptr → Links → Option Links
del n m = do
  next ← next_of m n
  prev ← prev_of m n
  m1 ← set_prev next prev m
  prev' ← prev_of m1 n
  next' ← next_of m1 n
  set_next prev' next' m1

-- `lsp_list_is_empty`
pub is_empty : Ptr → Links → Option Bool
is_empty head m = do next ← next_of m head; prev ← prev_of m head; some (next == prev)

-- `lsp_list_for`: the first value of the cursor, and the one after `ptr`; `some none` is NULL.
unfoldable pub first : Ptr → Links → Option (Option Ptr)
first head m = do
  next ← next_of m head
  prev ← prev_of m head
  if next == prev then some none else some (some next)

unfoldable pub after : Ptr → Ptr → Links → Option (Option Ptr)
after head ptr m = do next ← next_of m ptr; some (if next == head then none else some next)

-- The loop with a body that breaks at the first node which passes `test`: the cursor's last value.
unfoldable pub for_loop : (Ptr → Bool) → Ptr → Links → ℕ → Option Ptr → Run (Option Ptr)
for_loop test head m fuel none = ok none
for_loop test head m zero (some ptr) = out_of_fuel
for_loop test head m (suc fuel) (some ptr) = elim (test ptr) [
  | true ↦ ok (some ptr)
  | false ↦ elim (after head ptr m) [ none ↦ fault | some c ↦ for_loop test head m fuel c ]
]

unfoldable pub list_for : ℕ → (Ptr → Bool) → Ptr → Links → Run (Option Ptr)
list_for fuel test head m = elim (first head m) [
  | none ↦ fault
  | some c ↦ for_loop test head m fuel c
]
