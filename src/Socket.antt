-- ===== src/Socket.antt =====
-- src/lsp_socket.c: the calls of a client, over connections and ports.
pub mod Unreachable
pub mod Idle
pub mod Session
mod Tests
use liblsp.Prelude.{
  ℕ, Bool, not, ◌||◌, ◌&&◌, Option, none, some, ◌+◌, ◌==◌, ltb, if◌then◌else◌, Ptr, null, Run, ok,
  fault, and_then, ℤ,
}
use liblsp.Types.{
  err_none, err_port_invalid, packet_port_max, port_any, af_lsp, sock_raw, sock_stream,
  lspproto_lsp,
}
use liblsp.Queue.{Queue, WaitResult, pop}
use liblsp.Conn.{
  Conn, ConnAttr, Net, set_conn, set_queue, conn_alloc, conn_server, conn_child, conn_listen,
}
use liblsp.Conn.Close.{conn_free}

-- `lsp_socket`: NULL for arguments that are not of this protocol.
unfoldable pub socket :
    (sizeof_handle : ℕ)
    → (fresh : Ptr) → (setup : Bool) → (conn_queuelen : ℤ) → (egroup : Ptr)
    → (domain type protocol : ℕ) → Net
    → Run (Ptr × Net)
socket sizeof_handle fresh setup conn_queuelen egroup domain type protocol n =
    if not (domain == af_lsp)
    then ok (null, n)
    else if not (type == sock_raw) && not (type == sock_stream)
    then ok (null, n)
    else if not (protocol == lspproto_lsp)
    then ok (null, n)
    else conn_alloc sizeof_handle fresh setup conn_queuelen egroup n

-- The last part of `lsp_accept`, with what is stored in `child`.
unfoldable pub adopt : Ptr → (child : Option Ptr) → Net → Run (Ptr × Net)
adopt sock none n = fault
adopt sock (some child) n =
    if child == null
    then fault
    else ok (child, set_conn child (record (n.conn child) { type = conn_child; peer = sock }) n)

-- `lsp_accept`. An error of the queue is logged, and `child` then stays NULL.
unfoldable pub accept :
    (lock : ℕ)
    → (wait : Queue Ptr → WaitResult × Queue Ptr) → Ptr
    → (timeout : ℕ) → Net
    → Run (Ptr × Net)
accept lock wait sock timeout n =
    let handle = (n.conn sock).peer in
    if not ((n.conn sock).type == conn_server)
    then ok (null, n)
    else if not ((n.conn sock).state == conn_listen)
    then ok (null, n)
    else let (rc, child, q) = pop lock wait (n.queues handle) timeout in
      adopt sock child (set_queue handle q n)

abbrev pub set_attr : Ptr → ConnAttr → Net → Net
set_attr sock a n = set_conn sock (record (n.conn sock) { attr = a }) n

-- `lsp_connect`, with the port and the address of its `lsp_sockaddr_t`.
unfoldable pub connect : Ptr → (port addr : ℕ) → Net → ℕ × Net
connect sock port addr n =
    if port == port_any
    then (
      err_none,
      set_attr sock (record (n.conn sock).attr { rport = packet_port_max + 1; raddr = addr }) n,
    )
    else if ltb packet_port_max port
    then (err_port_invalid, n)
    else (err_none, set_attr sock (record (n.conn sock).attr { raddr = addr }) n)

-- `lsp_closesocket`: the result of `lsp_conn_free` is dropped.
unfoldable pub closesocket :
    (rc : Ptr → ℕ) → (lock : ℕ → ℕ) → (destroyed : ℕ) → (fuel : ℕ) → Ptr → Net → Run Net
closesocket rc lock destroyed fuel sock n =
    and_then (conn_free rc lock destroyed fuel sock n) (λ (r, n1). ok n1)
