-- ===== src/Memory/Free.antt =====
-- `lsp_free` over the list of blocks.
use liblsp.Prelude.{
  ℕ, zero, suc, ◌≤◌, ◌<◌, ◌≡◌, refl, true, false, Bool-cases, inl, inr, Option, none, some, List,
  [], ◌∷◌, arith, ◌==◌, has, find, length, Ptr, Run, ok, fault, test_of_eq,
}
use liblsp.LspList.{after}
use liblsp.LspList.Ring.{IsRing, Follows, AllValid}
use liblsp.LspList.Walk.{visited, after-cons, after-nil, first-visited}
use liblsp.Memory.{Blocks, drop_block, free_loop, free}

-- What `lsp_free` makes of the blocks: one that a loop comes to and that is freed is read once more.
abbrev pub Freed : Option Ptr → Blocks → Run Blocks → Type 0
Freed none h result = result ≡ ok h
Freed (some b) h result = result ≡ fault

module _ (head p : Ptr) (h : Blocks) where
  drop_hit : (b : Ptr) → (h.ptr b == p) ≡ true → after head b (drop_block head p b h).links ≡ none
  unfolding drop_block after
  drop_hit b hit = let same : (b == b) ≡ true = test_of_eq b b refl in ground arith

  drop_miss : (b : Ptr) → (h.ptr b == p) ≡ false → drop_block head p b h ≡ h
  unfolding drop_block
  drop_miss b miss = rw miss

  free_loop-Freed :
      (fuel : ℕ) (b : Ptr) (bs : List Ptr)
      → length bs < fuel
      → AllValid h.links (b ∷ bs)
      → Follows h.links.next (b ∷ bs) head
      → has head bs ≡ false
      → Freed (find (λ c. h.ptr c == p) (b ∷ bs)) h (free_loop head p fuel (some b) h)
  unfolding free_loop
  free_loop-Freed zero b bs short v f out = absurd (omega arith)
  free_loop-Freed (suc fuel) b [] short v f out = elim (Bool-cases (h.ptr b == p)) [
    | inl hit ↦ rw (hit, free_loop, drop_hit b hit)
    | inr miss ↦
        rw (miss, free_loop, drop_miss b miss, after-nil h.links head b v.0 f.0, drop_miss b miss)
  ]
  free_loop-Freed (suc fuel) b (u ∷ us) short v f out = elim (Bool-cases (h.ptr b == p)) [
    | inl hit ↦ rw (hit, free_loop, drop_hit b hit)
    | inr miss ↦
        rw
          (
            miss,
            free_loop,
            drop_miss b miss,
            after-cons h.links head b u v.0 f.0 (ground arith),
            drop_miss b miss,
          )
          (free_loop-Freed fuel u us (omega arith) v.1 f.1 (ground arith))
  ]

  -- In a list of blocks, what `lsp_free` is given and the list does not hold leaves the list and
  -- the count as they are. But where the list holds it among two blocks or more, the block is
  -- freed and then read once more; and where it is in the only block of the list, the list and the
  -- count stay as they are, too.
  pub free-Freed :
      (fuel : ℕ) (bs : List Ptr)
      → IsRing h.links head bs
      → length bs ≤ fuel
      → Freed (find (λ c. h.ptr c == p) (visited bs)) h (free head p fuel h)
  unfolding free free_loop
  free-Freed fuel [] r short = rw (free, first-visited h.links head (λ c. true) [] r)
  free-Freed fuel (b ∷ []) r short = rw (free, first-visited h.links head (λ c. true) (b ∷ []) r)
  free-Freed fuel (b ∷ c ∷ bs) r short =
      rw (free, first-visited h.links head (λ c. true) (b ∷ c ∷ bs) r)
        (free_loop-Freed fuel b (c ∷ bs) (omega arith) r.mapped.1 r.forth.1 (ground arith))
