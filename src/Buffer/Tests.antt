-- ===== src/Buffer/Tests.antt =====
-- The theorems about packet buffers, on a small one.
use liblsp.Prelude.{
  ℕ, ◌+◌, ◌≡◌, ◌≤◌, ◌≢◌, ◌<◌, ◌^◌, refl, some, [], ◌∷◌, null, size_mod, pos, Option, List,
  replicate, Ptr, arith, ltb, if◌then◌else◌,
}
use Prim.Native.Nat.{min, ◌-◌}
use liblsp.Types.{aligned_size}
use liblsp.Buffer.{Buffer, headroom_of, requested, alloc, put, push, pull, length}
use liblsp.Buffer.Bounds.{IsValid, alloc-IsValid, requested_wraps, pull_clips, put-push-refused}
use liblsp.Buffer.Deque.{
  Use, View, append_bytes, prepend_bytes, remove_bytes, use_all, serve_all, view,
}
use liblsp.Buffer.Deque.Refine.{use_all-serve_all}

-- Headroom for 8 bytes, 4 bytes, and tailroom for 12.
abbrev small_buffer : Buffer
small_buffer = record {
  iface = 0;
  headroom = 8;
  tailroom = 12;
  start = 1088;
  tail = 1092;
  end = 1104;
  lsp_packet = 1088;
  head = 1080;
}

small-IsValid : IsValid small_buffer
small-IsValid = omega arith

-- An allocator with the memory from 1000 to 9000.
abbrev small_malloc : ℕ → Ptr
small_malloc n = if ltb n 8000 then 1000 else 0

fits : (n : ℕ) → small_malloc n ≢ null → small_malloc n + n < size_mod
fits n ne = ground arith

abbrev allocated : Buffer
allocated = record {
  iface = 0;
  headroom = 8;
  tailroom = 16;
  start = 1088;
  tail = 1088;
  end = 1104;
  lsp_packet = 1088;
  head = 1080;
}

alloc_run : alloc small_malloc (λ p. pos 0) 0 16 ≡ some allocated
unfolding alloc headroom_of requested aligned_size
alloc_run = refl

alloc-IsValid_example :
    IsValid allocated
    × (length allocated ≡ 0)
    × (8 ≡ headroom_of (λ p. pos 0) 0)
    × (allocated.tailroom ≡ 16)
    × (allocated.head ≡ small_malloc (requested 16 8) + 80)
    × (allocated.end ≡ small_malloc (requested 16 8) + requested 16 8)
unfolding headroom_of
alloc-IsValid_example = alloc-IsValid small_malloc (λ p. pos 0) 0 16 fits (omega arith) alloc_run

requested_wraps_example : requested (2 ^ 64 - 1) 8 + size_mod ≤ 80 + (2 ^ 64 - 1) + 8
requested_wraps_example = requested_wraps (2 ^ 64 - 1) 8 (omega arith) (omega arith) (omega arith)

abbrev some_uses : List Use
some_uses =
    append_bytes (7 ∷ 8 ∷ [])
    ∷ prepend_bytes (1 ∷ 2 ∷ 3 ∷ [])
    ∷ append_bytes (replicate 11 0)
    ∷ remove_bytes 4
    ∷ remove_bytes 40
    ∷ []

use_all-serve_all_example :
    let (answers, m1, b1) = use_all some_uses (λ a. a, small_buffer) in
    ◌≡◌ {A = List (Option (List ℕ)) × View}
      (answers, view (m1, b1))
      (serve_all some_uses (view (λ a. a, small_buffer)))
use_all-serve_all_example =
    use_all-serve_all some_uses (λ a. a) (small-IsValid, λ e. absurd (omega (arith, e)))

pull_clips_example :
    ((pull small_buffer 9).0 ≡ 1088)
    × ((pull small_buffer 9).1.start ≡ 1088 + min 9 (length small_buffer))
    × (length (pull small_buffer 9).1 + min 9 (length small_buffer) ≡ length small_buffer)
    × ((pull small_buffer 9).1.tail ≡ 1092)
pull_clips_example = pull_clips 9 small-IsValid

put-push-refused_example :
    (put small_buffer 13 ≡ (null, small_buffer)) × (push small_buffer 9 ≡ (null, small_buffer))
put-push-refused_example = put-push-refused small_buffer 13 9 (omega arith) (omega arith)
