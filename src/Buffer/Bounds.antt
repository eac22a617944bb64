-- ===== src/Buffer/Bounds.antt =====
-- The layout of a packet buffer: `head`, headroom, `data`, the bytes, `tail`, tailroom, `end`.
use liblsp.Prelude.{
  ℕ, ◌+◌, ◌≤◌, ◌<◌, ◌≡◌, refl, ◌≢◌, some, List, [], ◌∷◌, arith, Ptr, null, ℤ, size_mod,
}
use Prim.Native.Nat.{min}
use liblsp.Types.{aligned_size}
use liblsp.Buffer.{
  Buffer, headroom_of, requested, alloc, put, push, pull, length, Op, put_op, push_op, pull_op,
  step, run, sizeof_buffer,
}

pub record IsValid (b : Buffer) : Type 0 where
  pub front : b.head + b.headroom ≡ b.start
  pub middle : b.start ≤ b.tail
  pub back : b.tail + b.tailroom ≡ b.end
  pub no_wrap : b.end < size_mod

pub length_lem : {b : Buffer} → IsValid b → b.start + length b ≡ b.tail
unfolding length
length_lem v = omega arith

pub put-IsValid : {b : Buffer} (n : ℕ) → IsValid b → IsValid (put b n).1
unfolding put
put-IsValid n v = ground arith

pub push-IsValid : {b : Buffer} (n : ℕ) → IsValid b → IsValid (push b n).1
unfolding push
push-IsValid n v = ground arith

pub pull-IsValid : {b : Buffer} (n : ℕ) → IsValid b → IsValid (pull b n).1
unfolding pull
pull-IsValid n v = ground arith

pub step-IsValid : {b : Buffer} (op : Op) → IsValid b → IsValid (step b op)
unfolding step
step-IsValid (put_op n) v = put-IsValid n v
step-IsValid (push_op n) v = push-IsValid n v
step-IsValid (pull_op n) v = pull-IsValid n v

-- With tailroom for it `lsp_buffer_put` makes the buffer longer at the back.
pub put_fits :
    {b : Buffer} (n : ℕ)
    → IsValid b
    → n ≤ b.tailroom
    → ((put b n).0 ≡ b.start + length b)
      × ((put b n).1.start ≡ b.start)
      × (length (put b n).1 ≡ length b + n)
unfolding put length
put_fits n v h = ground arith

-- With headroom for it `lsp_buffer_push` makes the buffer longer in front.
pub push_fits :
    {b : Buffer} (n : ℕ)
    → IsValid b
    → n ≤ b.headroom
    → ((push b n).0 + n ≡ b.start)
      × ((push b n).1.start ≡ (push b n).0)
      × (length (push b n).1 ≡ n + length b)
unfolding push length
push_fits n v h = ground arith

-- `lsp_buffer_pull` of a valid buffer returns `data`, makes the buffer shorter in front, by what it
-- holds at most, and leaves `tail`.
pub pull_clips :
    {b : Buffer} (n : ℕ)
    → IsValid b
    → ((pull b n).0 ≡ b.start)
      × ((pull b n).1.start ≡ b.start + min n (length b))
      × (length (pull b n).1 + min n (length b) ≡ length b)
      × ((pull b n).1.tail ≡ b.tail)
unfolding pull length
pull_clips n v = ground arith

step_ends : (b : Buffer) (op : Op) → ((step b op).head ≡ b.head) × ((step b op).end ≡ b.end)
unfolding step put push pull
step_ends b (put_op n) = ground arith
step_ends b (push_op n) = ground arith
step_ends b (pull_op n) = ground arith

-- After any sequence of calls a valid buffer is valid, and `head` and `end` are where they were.
pub run-IsValid :
    (ops : List Op) {b : Buffer}
    → IsValid b
    → IsValid (run b ops) × ((run b ops).head ≡ b.head) × ((run b ops).end ≡ b.end)
unfolding run
run-IsValid [] v = (v, refl, refl)
run-IsValid (op ∷ ops) {b} v =
    let (w, h, e) = run-IsValid ops (step-IsValid op v) in
    (w, ground (arith, step_ends b op), ground (arith, step_ends b op))

aligned_sizeof : aligned_size sizeof_buffer ≡ sizeof_buffer
unfolding aligned_size
aligned_sizeof = refl

requested_lem :
    (len h : ℕ) → sizeof_buffer + len + h < size_mod → requested len h ≡ sizeof_buffer + len + h
unfolding requested
requested_lem len h small = rw aligned_sizeof (omega arith)

-- A buffer that is allocated, where the sizes do not overflow and the allocator's blocks lie in the
-- address space, is valid and empty, has the room asked for, and ends where its block ends.
pub alloc-IsValid :
    (malloc : ℕ → Ptr) (min_header_len : Ptr → ℤ) (iface : Ptr) (len : ℕ) {b : Buffer}
    → ((n : ℕ) → malloc n ≢ null → malloc n + n < size_mod)
    → sizeof_buffer + len + headroom_of min_header_len iface < size_mod
    → alloc malloc min_header_len iface len ≡ some b
    → IsValid b
      × (length b ≡ 0)
      × (b.headroom ≡ headroom_of min_header_len iface)
      × (b.tailroom ≡ len)
      × (b.head ≡ malloc (requested len b.headroom) + sizeof_buffer)
      × (b.end ≡ malloc (requested len b.headroom) + requested len b.headroom)
unfolding alloc length
alloc-IsValid malloc min_header_len iface len {b} fits small e =
    let h = headroom_of min_header_len iface in
    ground (arith, fits (requested len h), requested_lem len h small, aligned_sizeof)

-- Where the three sizes do not fit a `size_t` together, the block asked for is smaller than they are.
pub requested_wraps :
    (len h : ℕ)
    → len < size_mod
    → h < size_mod
    → size_mod ≤ sizeof_buffer + len + h
    → requested len h + size_mod ≤ sizeof_buffer + len + h
unfolding requested
requested_wraps len h hl hh big = rw aligned_sizeof (omega arith)

-- With enough headroom in a valid buffer, `lsp_buffer_pull` takes off again what `lsp_buffer_push` put in
-- front: it returns the same pointer, and the buffer is as it was.
pub pull-push :
    {b : Buffer} (n : ℕ) → IsValid b → n ≤ b.headroom → pull (push b n).1 n ≡ ((push b n).0, b)
unfolding pull push
pull-push n v h = ground arith

-- Of a valid buffer that holds enough bytes, `lsp_buffer_push` puts back what `lsp_buffer_pull` took off:
-- it returns the same pointer, and the buffer is as it was.
pub push-pull :
    {b : Buffer} (n : ℕ) → IsValid b → n ≤ length b → push (pull b n).1 n ≡ ((pull b n).0, b)
unfolding pull push length
push-pull n v h = ground arith

-- Where the room is too small both functions return NULL, and change nothing.
pub put-push-refused :
    (b : Buffer) (n k : ℕ)
    → b.tailroom < n
    → b.headroom < k
    → (put b n ≡ (null, b)) × (push b k ≡ (null, b))
unfolding put push
put-push-refused b n k h j = ground arith
