-- ===== src/Port.antt =====
-- src/lsp_port.c: the ports, each with a list of the sockets that listen to it.
pub mod Listen
pub mod Bind
pub mod Init
mod Tests
use liblsp.Prelude.{
  not, ℕ, zero, suc, ◌+◌, ◌*◌, Bool, true, false, Option, none, some, List, ◌∷◌, ◌==◌, ltb,
  if◌then◌else◌, Ptr, null, Run, ok, fault, and_then, access, update, ℤ,
}
use liblsp.Types.{
  err_none, err_nomem, err_invalid, err_port_in_use, err_port_invalid, packet_port_max, port_any,
  sizeof_ptr,
}
use liblsp.LspList.{Links, head_init, is_empty, add, insert_before, list_for}
use liblsp.Queue.{Queue, create}
use liblsp.Conn.{Conn, ConnAttr, Net, set_conn, set_queue, conn_server, conn_listen}

abbrev pub port_closed : ℕ
port_closed = 0

abbrev pub port_open : ℕ
port_open = 1

-- The ports are an array of so many `lsp_port_t`.
abbrev pub port_count : ℕ
port_count = packet_port_max + 2

abbrev pub sizeof_port : ℕ
sizeof_port = 24

-- The array of ports and the states in it; the list heads are in the connections' memory of links.
pub record Ports : Type 0 where
  pub ports : Ptr
  pub state : ℕ → ℕ

-- `&ports[i].sockets`
abbrev pub sockets : Ports → ℕ → Ptr
sockets ps i = ps.ports + i * sizeof_port + 8

abbrev pub set_state : ℕ → ℕ → Ports → Ports
set_state i s ps = record ps { state = update ps.state i s }

-- `lsp_port_init`: the loop over the array's list heads, and the whole.
unfoldable pub init_heads : (left i : ℕ) → Ports → Links → Option Links
init_heads zero i ps m = some m
init_heads (suc left) i ps m = elim (head_init (sockets ps i) m) [
  | none ↦ none
  | some m1 ↦ init_heads left (suc i) ps m1
]

-- A block from malloc is mapped: `fresh` is its address, and `m` the links with its nodes. Where the ports
-- are made already, LSP_ASSERT fails.
unfoldable pub port_init : (fresh : Ptr) → Links → Ports → Run (ℕ × Ports × Links)
port_init fresh m ps =
    let cleared : Ports = record { ports = fresh; state = λ i. port_closed } in
    if not (ps.ports == null)
    then fault
    else if fresh == null
    then ok (err_nomem, record ps { ports = null }, m)
    else and_then (access (init_heads port_count 0 cleared m)) (λ m1. ok (err_none, cleared, m1))

-- `lsp_port_free`, with the blocks that were freed.
unfoldable pub port_free : Ports → (freed : List Ptr) → ℕ × Ports × List Ptr
port_free ps freed = (err_none, record ps { ports = null }, ps.ports ∷ freed)

-- `lsp_port_get`
unfoldable pub port_get : Ports → ℕ → Ptr
port_get ps port = if ltb packet_port_max port then null else ps.ports + port * sizeof_port

-- `lsp_listen`: the socket comes before the one that the loop ended at, if it ended at one.
unfoldable pub enlist_before : Ptr → Net → Option Ptr → Run Net
enlist_before sock n none = ok n
enlist_before sock n (some sk) =
    and_then (access (insert_before sock sk n.links)) (λ m. ok (record n { links = m }))

-- The place of a socket among those of the port, which `lsp_list_is_empty` takes for none or not.
unfoldable pub enlist_in : (fuel : ℕ) → Ptr → (head : Ptr) → Net → Bool → Run Net
enlist_in fuel sock head n true =
    and_then (access (add sock head n.links)) (λ m. ok (record n { links = m }))
enlist_in fuel sock head n false =
    and_then
      (list_for fuel (λ sk. ltb (n.conn sk).attr.priority (n.conn sock).attr.priority) head n.links)
      (enlist_before sock n)

unfoldable pub enlist : (fuel : ℕ) → Ptr → (head : Ptr) → Net → Run Net
enlist fuel sock head n = and_then (access (is_empty head n.links)) (enlist_in fuel sock head n)

-- `lsp_listen` from the assignments to `type` on, of which the second takes the place of the first.
-- `created` is the queue that `lsp_queue_create` makes at `fresh`, if it makes one.
unfoldable pub listen_with :
    (fuel : ℕ)
    → (fresh : Ptr) → Ptr
    → Net
    → Ports
    → (created : Option (Queue Ptr)) → Run (ℕ × Net × Ports)
listen_with fuel fresh sock n ps none =
    ok (err_nomem, set_conn sock (record (n.conn sock) { type = conn_listen; peer = null }) n, ps)
listen_with fuel fresh sock n ps (some q) =
    let port = (n.conn sock).attr.lport in
    and_then
      (enlist fuel sock (sockets ps port) (
        set_queue fresh q
          (set_conn sock (record (n.conn sock) { type = conn_listen; peer = fresh }) n)))
      (λ n1. ok (err_none, n1, set_state port port_open ps))

-- `lsp_listen`. `sock` is read before its test for NULL.
unfoldable pub listen :
    (sizeof_handle : ℕ)
    → (fuel : ℕ) → (fresh : Ptr) → (setup : Bool) → Ptr
    → (backlog : ℤ) → Net
    → Ports
    → Run (ℕ × Net × Ports)
listen sizeof_handle fuel fresh setup sock backlog n ps =
    if sock == null
    then fault
    else if ltb packet_port_max (n.conn sock).attr.lport
    then ok (err_invalid, n, ps)
    else listen_with fuel fresh sock n ps
        (create sizeof_handle (λ size. fresh) setup null backlog sizeof_ptr)

-- The last part of `lsp_bind`. A read where the ports are not made, or behind the array, is a fault.
unfoldable pub check_port : Ptr → Net → Ports → Run (ℕ × Net)
check_port sock n ps =
    if ps.ports == null
    then fault
    else if ltb (n.conn sock).attr.lport port_count
    then if ps.state (n.conn sock).attr.lport == port_closed
      then ok (err_none, n)
      else ok (err_port_in_use, n)
    else fault

-- `lsp_bind`, with the port of its address.
unfoldable pub bind : Ptr → (port : ℕ) → Net → Ports → Run (ℕ × Net)
bind sock port n ps =
    if sock == null
    then ok (err_invalid, n)
    else if port == port_any
    then check_port sock
        (set_conn sock
          (record (n.conn sock) {
            attr = record (n.conn sock).attr { lport = packet_port_max + 1 };
          })
          n)
        ps
    else if ltb packet_port_max port
    then ok (err_port_invalid, n)
    else check_port sock n ps
