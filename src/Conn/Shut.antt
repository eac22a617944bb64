-- ===== src/Conn/Shut.antt =====
-- src/lsp_conn.c: `lsp_conn_close` of a connection that is beyond CONN_CLOSED.
use liblsp.Prelude.{ℕ, ◌≡◌, ◌≢◌, List, [], ◌∷◌, ◌==◌, if◌then◌else◌, Ptr, null, Run, ok, fault}
use liblsp.Types.{err_none}
use liblsp.LspList.{Links}
use liblsp.LspList.Ring.{IsRing}
use liblsp.Queue.{Queue}
use liblsp.Queue.Ring.{Holds}
use liblsp.Conn.{Net, set_conn, set_queue, conn_closed}

-- What a close of `c` makes of `n`, where `c` stood in the list of `head` and its receive queue held `xs`:
-- it is closed, off the list, and without its oldest buffer, and no other connection changes. Its event
-- group is freed, and forgotten if that was a success. An empty queue ends in a fault.
pub record IsShut (destroyed : ℕ) (c head : Ptr) (ys xs : List Ptr) (n m : Net) : Type 0 where
  pub state_closed : (m.conn c).state ≡ conn_closed
  pub off_list : IsRing m.links head ys
  pub buffers_left : Holds (m.queues (n.conn c).rx_queue) xs
  pub egroup_freed : m.freed ≡ (n.conn c).egroup ∷ n.freed
  pub egroup_left : (m.conn c).egroup ≡ (if destroyed == err_none then null else (n.conn c).egroup)
  pub others : (d : Ptr) → d ≢ c → m.conn d ≡ n.conn d

abbrev pub Shuts : ℕ → (c head : Ptr) → (ys xs : List Ptr) → Net → Run (ℕ × Net) → Type 0
Shuts destroyed c head ys [] n result = result ≡ fault
Shuts destroyed c head ys (x ∷ xs) n result =
    (m : Net) × (result ≡ ok (destroyed, m)) × IsShut destroyed c head ys xs n m

-- The connection at `c` with its state closed, behind the list operation that gave `m`.
abbrev unlinked : Ptr → Links → Net → Net
unlinked c m n = set_conn c (record (n.conn c) { state = conn_closed }) (record n { links = m })

-- And with the queue `q` behind the flush.
abbrev flushed : Ptr → Links → Queue Ptr → Net → Net
flushed c m q n = set_queue (n.conn c).rx_queue q (unlinked c m n)
