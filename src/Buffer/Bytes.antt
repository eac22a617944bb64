-- ===== src/Buffer/Bytes.antt =====
-- The bytes between `data` and `tail`: a queue of bytes that also takes back at the front.
use liblsp.Prelude.{ℕ, zero, suc, ◌+◌, ◌≤◌, ◌≡◌, sym, ap, ◌∙◌, List, [], ◌∷◌, ◌++◌, arith}
use Prim.Native.Nat.{min}
use mathlib.Core.Path.{ap₂}
use native.Mathlib.Nat.{suc-add}
use liblsp.Buffer.{Buffer, put, push, pull, length}
use liblsp.Buffer.Bounds.{IsValid, put_fits, push_fits, pull_clips}

module _ (m : ℕ → ℕ) where
  -- `n` bytes of the memory `m` from address `a` on.
  abbrev pub slice : ℕ → ℕ → List ℕ
  slice a zero = []
  slice a (suc n) = m a ∷ slice (suc a) n

  pub slice-add : (a n k : ℕ) → slice a (n + k) ≡ slice a n ++ slice (a + n) k
  slice-add a zero k = ap₂ slice (omega arith) (omega arith)
  slice-add a (suc n) k = rw suc-add (
      ap (λ l. m a ∷ l)
        (slice-add (suc a) n k ∙ ap (λ c. slice (suc a) n ++ slice c k) (omega arith)))

  -- Two ways to measure one window.
  slice_at : {a a' n n' : ℕ} → a ≡ a' → n ≡ n' → slice a n ≡ slice a' n'
  slice_at p q = ap₂ slice p q

  abbrev pub contents : Buffer → List ℕ
  contents b = slice b.start (length b)

  -- `lsp_buffer_put` with enough tailroom in a valid buffer returns where the new last bytes lie: the
  -- bytes of the buffer are those of before, then the `n` bytes at the pointer returned.
  pub put-contents :
      {b : Buffer} (n : ℕ)
      → IsValid b
      → n ≤ b.tailroom
      → contents (put b n).1 ≡ contents b ++ slice (put b n).0 n
  put-contents {b} n v h =
      let (p, s, l) = put_fits n v h in
      slice_at s l ∙ slice-add b.start (length b) n ∙ ap (λ a. contents b ++ slice a n) (sym p)

  -- `lsp_buffer_push` with enough headroom in a valid buffer returns where the new first bytes lie: the
  -- bytes of the buffer are the `n` bytes at the pointer returned, then those of before.
  pub push-contents :
      {b : Buffer} (n : ℕ)
      → IsValid b
      → n ≤ b.headroom
      → contents (push b n).1 ≡ slice (push b n).0 n ++ contents b
  push-contents {b} n v h =
      let (p, s, l) = push_fits n v h in
      slice_at s l
      ∙ slice-add (push b n).0 n (length b)
      ∙ ap (λ a. slice (push b n).0 n ++ slice a (length b)) p

  -- `lsp_buffer_pull` of a valid buffer returns where the removed bytes lie: they, `n` of them or all
  -- that there are, and then the bytes that are left, are the bytes of before.
  pub pull-contents :
      {b : Buffer} (n : ℕ)
      → IsValid b
      → contents b ≡ slice (pull b n).0 (min n (length b)) ++ contents (pull b n).1
  pull-contents {b} n v =
      let (p, s, l, t) = pull_clips n v in
      let k = min n (length b) in
      slice_at (sym p) (omega arith)
      ∙ slice-add (pull b n).0 k (length (pull b n).1)
      ∙ ap (λ a. slice (pull b n).0 k ++ slice a (length (pull b n).1)) (omega arith)
