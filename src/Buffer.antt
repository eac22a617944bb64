-- ===== src/Buffer.antt =====
-- src/lsp_buffer.c: packet buffers with headroom and tailroom. Pointers are addresses; sums and
-- differences of pointers and of `size_t` wrap at 2^64. The buffer's list node is not used here.
pub mod Bounds
pub mod Bytes
pub mod Deque
mod Tests
use liblsp.Prelude.{
  ℕ, Option, none, some, List, [], ◌∷◌, ◌==◌, ltb, if◌then◌else◌, Ptr, null, ℤ, to_size, add_size,
  sub_size,
}
use liblsp.Types.{err_none, aligned_size, default_buffer_header_len}

-- `struct lsp_buffer_s`: a pointer, a list node of two, two sizes and five pointers.
abbrev pub sizeof_buffer : ℕ
sizeof_buffer = 80

pub record Buffer : Type 0 where
  pub iface : Ptr
  pub headroom : ℕ
  pub tailroom : ℕ
  pub start : ℕ
  pub tail : ℕ
  pub end : ℕ
  pub lsp_packet : ℕ
  pub head : ℕ

-- The headroom: what the interface asks for, an `int` that becomes a `size_t`, or the default.
unfoldable pub headroom_of : (min_header_len : Ptr → ℤ) → Ptr → ℕ
headroom_of min_header_len iface =
    if iface == null then default_buffer_header_len else to_size (min_header_len iface)

-- The size that `lsp_buffer_alloc` asks of `lsp_malloc`.
unfoldable pub requested : ℕ → ℕ → ℕ
requested len headroom = add_size (add_size (aligned_size sizeof_buffer) len) headroom

unfoldable pub alloc : (malloc : ℕ → Ptr) → (min_header_len : Ptr → ℤ) → Ptr → ℕ → Option Buffer
alloc malloc min_header_len iface len =
    let headroom = headroom_of min_header_len iface in
    let buff = malloc (requested len headroom) in
    let head = add_size buff (aligned_size sizeof_buffer) in
    if buff == null
    then none
    else some (record {
      iface = iface;
      headroom = headroom;
      tailroom = len;
      start = add_size head headroom;
      tail = add_size head headroom;
      end = add_size (add_size head len) headroom;
      lsp_packet = add_size head headroom;
      head = head;
    })

-- `lsp_buffer_put`: the pointer returned, NULL on overflow, and the buffer.
unfoldable pub put : Buffer → ℕ → Ptr × Buffer
put b len =
    if ltb b.tailroom len
    then (null, b)
    else (b.tail, record b { tailroom = sub_size b.tailroom len; tail = add_size b.tail len })

unfoldable pub push : Buffer → ℕ → Ptr × Buffer
push b len = if ltb b.headroom len then (null, b) else (
  sub_size b.start len,
  record b { headroom = sub_size b.headroom len; start = sub_size b.start len },
)

-- `lsp_buffer_free`, with the blocks that were freed.
unfoldable pub free : Ptr → (freed : List Ptr) → ℕ × List Ptr
free buff freed = (err_none, buff ∷ freed)

-- `lsp_buffer_length`
unfoldable pub length : Buffer → ℕ
length b = sub_size b.tail b.start

-- The last assignments of `lsp_buffer_pull`, for a `data` that went past `tail`.
unfoldable pub catch_up : Buffer → Buffer
catch_up b =
    if ltb b.tail b.start
    then record b { tailroom = sub_size b.tailroom (sub_size b.start b.tail); tail = b.start }
    else b

unfoldable pub clip : Buffer → ℕ → ℕ
clip b len = if ltb (sub_size b.tail b.start) len then sub_size b.tail b.start else len

unfoldable pub pull : Buffer → ℕ → Ptr × Buffer
unfolding catch_up clip
pull b len =
    let n = clip b len in
    (b.start, catch_up (record b { start = add_size b.start n; headroom = add_size b.headroom n }))

-- What a client can do with a buffer, and a sequence of such calls.
pub data Op : Type 0 where
  put_op push_op pull_op : ℕ → Op

unfoldable pub step : Buffer → Op → Buffer
step b (put_op n) = (put b n).1
step b (push_op n) = (push b n).1
step b (pull_op n) = (pull b n).1

unfoldable pub run : Buffer → List Op → Buffer
run b [] = b
run b (op ∷ ops) = run (step b op) ops
