-- ===== src/Buffer/Deque.antt =====
-- What a buffer is for its users: bytes with room for more in front and behind.

pub mod Store
pub mod Refine
use liblsp.Prelude.{
  ℕ, zero, suc, ◌+◌, ◌-◌, ◌==◌, ltb, if◌then◌else◌, Option, none, some, List, [], ◌∷◌, ◌++◌, take,
  drop, length, Ptr, null, update,
}
use Prim.Native.Nat.{min}
use liblsp.Buffer.{Buffer, put, push, pull, length as buffer_length}
use liblsp.Buffer.Bytes.{slice, contents}

-- What a user does: it writes bytes where the new ones lie, or reads those that it removes.
pub data Use : Type 0 where
  append_bytes prepend_bytes : List ℕ → Use
  remove_bytes : ℕ → Use

-- The room in front, the bytes, the room behind.
pub record View : Type 0 where
  pub front : ℕ
  pub bytes : List ℕ
  pub back : ℕ

-- Each use of the abstract buffer: none where it is refused, or the bytes removed.
unfoldable pub serve : Use → View → Option (List ℕ) × View
serve (append_bytes ws) v =
    if ltb v.back (length ws)
    then (none, v)
    else (some [], record v { bytes = v.bytes ++ ws; back = v.back - length ws })
serve (prepend_bytes ws) v =
    if ltb v.front (length ws)
    then (none, v)
    else (some [], record v { bytes = ws ++ v.bytes; front = v.front - length ws })
serve (remove_bytes n) v = (
  some (take n v.bytes),
  record v { bytes = drop n v.bytes; front = v.front + min n (length v.bytes) },
)

unfoldable pub serve_all : List Use → View → List (Option (List ℕ)) × View
serve_all [] v = ([], v)
serve_all (u ∷ uses) v =
    let (answer, v1) = serve u v in let (answers, v2) = serve_all uses v1 in (answer ∷ answers, v2)

-- Bytes written to memory from address `p` on.
abbrev pub store : Ptr → List ℕ → (ℕ → ℕ) → ℕ → ℕ
store p [] m = m
store p (w ∷ ws) m = store (suc p) ws (update m p w)

-- The same on the program's buffer, and the memory that it lies in.
abbrev pub write : (m : ℕ → ℕ) → List ℕ → Ptr × Buffer → Option (List ℕ) × (ℕ → ℕ) × Buffer
write m ws (p, b) = if p == null then (none, m, b) else (some [], store p ws m, b)

unfoldable pub use_buffer : Use → (ℕ → ℕ) × Buffer → Option (List ℕ) × (ℕ → ℕ) × Buffer
use_buffer (append_bytes ws) (m, b) = write m ws (put b (length ws))
use_buffer (prepend_bytes ws) (m, b) = write m ws (push b (length ws))
use_buffer (remove_bytes n) (m, b) =
    let (p, b1) = pull b n in (some (slice m p (min n (buffer_length b))), m, b1)

unfoldable pub use_all : List Use → (ℕ → ℕ) × Buffer → List (Option (List ℕ)) × (ℕ → ℕ) × Buffer
use_all [] (m, b) = ([], m, b)
use_all (u ∷ uses) s =
    let (answer, m, b) = use_buffer u s in
    let (answers, m1, b1) = use_all uses (m, b) in (answer ∷ answers, m1, b1)

abbrev pub view : (ℕ → ℕ) × Buffer → View
view (m, b) = record { front = b.headroom; bytes = contents m b; back = b.tailroom }
