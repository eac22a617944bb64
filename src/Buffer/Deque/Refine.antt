-- ===== src/Buffer/Deque/Refine.antt =====
-- The program's buffer against the abstract one, over any sequence of uses.
use liblsp.Prelude.{
  ℕ, suc, ◌+◌, ◌-◌, ◌≤◌, ◌≡◌, ◌≢◌, inl, inr, refl, sym, ap, ◌∙◌, Bool-cases, Option, none, some,
  List, [], ◌∷◌, ◌++◌, take, drop, length, arith, Ptr, null, ltb, test_of_ne, subst,
}
use mathlib.Core.Path.{ap₂}
use Prim.Native.Nat.{min}
use liblsp.Buffer.{Buffer, put, push, pull, length as buffer_length}
use liblsp.Buffer.Bounds.{
  IsValid, put-IsValid, push-IsValid, pull-IsValid, put_fits, push_fits, pull_clips,
  put-push-refused,
}
use liblsp.Buffer.Bytes.{slice, contents, put-contents, push-contents}
use liblsp.Buffer.Deque.{
  Use, append_bytes, prepend_bytes, remove_bytes, View, serve, serve_all, store, write, use_buffer,
  use_all, view,
}
use liblsp.Buffer.Deque.Store.{slice-store, slice-store_apart, take-slice, drop-slice, length-slice}

-- A valid buffer that does not begin at NULL.
abbrev pub IsPlaced : Buffer → Type 0
IsPlaced b = IsValid b × (b.head ≢ null)

-- One use of the program's buffer in `m` is that of the abstract one, and leaves a buffer that is placed.
abbrev Refines : Use → (ℕ → ℕ) → Buffer → Type 0
Refines u m b =
    let (answer, m1, b1) = use_buffer u (m, b) in
    ((answer, view (m1, b1)) ≡ serve u (view (m, b))) × IsPlaced b1

put_room :
    {b : Buffer} (n : ℕ)
    → IsValid b
    → n ≤ b.tailroom
    → ((put b n).1.headroom ≡ b.headroom)
      × ((put b n).1.tailroom ≡ b.tailroom - n)
      × ((put b n).1.head ≡ b.head)
unfolding put
put_room n v h = ground arith

push_room :
    {b : Buffer} (n : ℕ)
    → IsValid b
    → n ≤ b.headroom
    → ((push b n).1.headroom ≡ b.headroom - n)
      × ((push b n).1.tailroom ≡ b.tailroom)
      × ((push b n).1.head ≡ b.head)
unfolding push
push_room n v h = ground arith

pull_room :
    {b : Buffer} (n : ℕ)
    → IsValid b
    → ((pull b n).1.headroom ≡ b.headroom + min n (buffer_length b))
      × ((pull b n).1.tailroom ≡ b.tailroom)
      × ((pull b n).1.head ≡ b.head)
unfolding pull buffer_length
pull_room n v = ground arith

view_path : {v w : View} → v.front ≡ w.front → v.bytes ≡ w.bytes → v.back ≡ w.back → v ≡ w
view_path p q r i = record { front = p i; bytes = q i; back = r i }

module _ (m : ℕ → ℕ) (ws : List ℕ) where
  -- The user writes `ws` where a call says, and sees `v`.
  abbrev Sees : Option (List ℕ) × View → Ptr × Buffer → Type 0
  Sees seen result =
      let (a, m1, b1) = write m ws result in ((a, view (m1, b1)) ≡ seen) × IsPlaced b1

  Sees-written :
      (v : View) (result : Ptr × Buffer)
      → result.0 ≢ null
      → IsPlaced result.1
      → view (store result.0 ws m, result.1) ≡ v
      → Sees (some [], v) result
  Sees-written v result ne placed e =
      rw (test_of_ne result.0 null ne) (ap (λ w. (some [], w)) e, placed)

  Sees-refused :
      {b : Buffer} (result : Ptr × Buffer)
      → IsPlaced b
      → result ≡ (null, b)
      → Sees (none, view (m, b)) result
  Sees-refused {b} result placed e = subst (Sees (none, view (m, b))) (sym e) (refl, placed)

  append-Refines : {b : Buffer} → IsPlaced b → Refines (append_bytes ws) m b
  unfolding use_buffer serve
  append-Refines {b} (v, placed) = elim (Bool-cases (ltb b.tailroom (length ws))) [
    | inl full ↦
        let refused =
          (put-push-refused b (length ws) (suc b.headroom) (ground (arith, full))
            (omega arith)).0 in
        rw full (Sees-refused (put b (length ws)) (v, placed) refused)
    | inr fits ↦
        let h : length ws ≤ b.tailroom = ground (arith, fits) in
        let (at, start, size) = put_fits (length ws) v h in
        let (front, back, head) = put_room (length ws) v h in
        let k = store (put b (length ws)).0 ws m in
        let bytes : contents k (put b (length ws)).1 ≡ contents m b ++ ws =
          put-contents k (length ws) v h
          ∙ ap₂ (λ xs ys. xs ++ ys)
              (slice-store_apart (put b (length ws)).0 b.start (buffer_length b) ws m
                (inl (omega (arith, at))))
              (slice-store (put b (length ws)).0 ws m) in
        rw fits (
          Sees-written _ (put b (length ws)) (λ e. placed (omega (arith, e, at, v.front)))
            (put-IsValid (length ws) v, λ e. placed (omega (arith, e, head)))
            (view_path front bytes back))
  ]

  prepend-Refines : {b : Buffer} → IsPlaced b → Refines (prepend_bytes ws) m b
  unfolding use_buffer serve
  prepend-Refines {b} (v, placed) = elim (Bool-cases (ltb b.headroom (length ws))) [
    | inl full ↦
        let refused =
          (put-push-refused b (suc b.tailroom) (length ws) (omega arith)
            (ground (arith, full))).1 in
        rw full (Sees-refused (push b (length ws)) (v, placed) refused)
    | inr fits ↦
        let h : length ws ≤ b.headroom = ground (arith, fits) in
        let (at, start, size) = push_fits (length ws) v h in
        let (front, back, head) = push_room (length ws) v h in
        let k = store (push b (length ws)).0 ws m in
        let bytes : contents k (push b (length ws)).1 ≡ ws ++ contents m b =
          push-contents k (length ws) v h
          ∙ ap₂ (λ xs ys. xs ++ ys) (slice-store (push b (length ws)).0 ws m)
              (slice-store_apart (push b (length ws)).0 b.start (buffer_length b) ws m
                (inr (omega (arith, at)))) in
        rw fits (
          Sees-written _ (push b (length ws)) (λ e. placed (omega (arith, e, at, v.front, h)))
            (push-IsValid (length ws) v, λ e. placed (omega (arith, e, head)))
            (view_path front bytes back))
  ]

remove-Refines : (m : ℕ → ℕ) (n : ℕ) {b : Buffer} → IsPlaced b → Refines (remove_bytes n) m b
unfolding use_buffer serve
remove-Refines m n {b} (v, placed) =
    let (at, start, size, tail) = pull_clips n v in
    let (front, back, head) = pull_room n v in
    let seen = length-slice m b.start (buffer_length b) in
    let taken : slice m (pull b n).0 (min n (buffer_length b)) ≡ take n (contents m b) =
      ap (λ a. slice m a (min n (buffer_length b))) at
      ∙ sym (take-slice m n b.start (buffer_length b)) in
    let left : contents m (pull b n).1 ≡ drop n (contents m b) =
      ap₂ (slice m) start (omega (arith, size)) ∙ sym (drop-slice m n b.start (buffer_length b)) in
    let room : (pull b n).1.headroom ≡ b.headroom + min n (length (contents m b)) =
      front ∙ ap (λ k. b.headroom + min n k) (sym seen) in
    (
      ap₂ (λ bytes w. (some bytes, w)) taken (view_path room left back),
      (pull-IsValid n v, λ e. placed (omega (arith, e, head))),
    )

use_buffer-Refines : (u : Use) (m : ℕ → ℕ) {b : Buffer} → IsPlaced b → Refines u m b
use_buffer-Refines (append_bytes ws) m p = append-Refines m ws p
use_buffer-Refines (prepend_bytes ws) m p = prepend-Refines m ws p
use_buffer-Refines (remove_bytes n) m p = remove-Refines m n p

-- A valid buffer that does not begin at NULL is a sequence of bytes with room in front and behind, whatever is
-- done with it: bytes written where `lsp_buffer_put` and `lsp_buffer_push` say come after or before those
-- that there are, and are refused where the room is too small; `lsp_buffer_pull` gives the first bytes, all
-- where there are fewer, and their room. Every answer, and what is left, are those of the sequence.
pub use_all-serve_all :
    (uses : List Use) (m : ℕ → ℕ) {b : Buffer}
    → IsPlaced b
    → let (answers, m1, b1) = use_all uses (m, b) in
      (answers, view (m1, b1)) ≡ serve_all uses (view (m, b))
unfolding use_all serve_all
use_all-serve_all [] m p = refl
use_all-serve_all (u ∷ uses) m {b} p =
    let (first, p1) = use_buffer-Refines u m p in
    let rest = use_all-serve_all uses (use_buffer u (m, b)).1 p1 in
    ap (λ (answers, v). ((use_buffer u (m, b)).0 ∷ answers, v)) rest
    ∙ ap (λ (answer, v). (answer ∷ (serve_all uses v).0, (serve_all uses v).1)) first
