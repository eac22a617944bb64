-- ===== src/Socket/Idle.antt =====
-- The states that connections come to by the calls of a client.
use liblsp.Prelude.{
  ℕ, ◌≤◌, ◌≡◌, Bool, true, false, Option, none, some, List, [], ◌∷◌, arith, leb, ltb, Ptr, null,
  Run, ok, and_then, access, ℤ, AllOk, AllOk-and_then, AllOk-and_then_of, of_branches,
}
use liblsp.Types.{err_none, sizeof_ptr}
use liblsp.LspList.{is_empty, add, list_for, insert_before}
use liblsp.Queue.{Queue, WaitResult, create, pop}
use liblsp.Conn.{
  Conn, Net, conn_closed, set_conn, set_queue, conn_alloc, prepare, with_queue, ensure_queue,
  ensure_egroup, reset_conn,
}
use liblsp.Conn.Close.{conn_close}
use liblsp.Port.{
  Ports, bind, check_port, listen, enlist, enlist_in, enlist_before, listen_with, sockets,
}
use liblsp.Socket.{socket, accept, adopt, connect}

-- The calls of a client on its sockets, with what the system gives in each.
pub data Call : Type 0 where
  socket_call :
      (fresh : Ptr)
      → (setup : Bool) → (queuelen : ℤ) → (egroup : Ptr) → (domain type protocol : ℕ) → Call
  bind_call : (sock : Ptr) → (port : ℕ) → Call
  listen_call : (fresh : Ptr) → (setup : Bool) → (sock : Ptr) → (backlog : ℤ) → Call
  accept_call :
      (lock : ℕ) → (wait : Queue Ptr → WaitResult × Queue Ptr) → (sock : Ptr) → (timeout : ℕ) → Call
  connect_call : (sock : Ptr) → (port addr : ℕ) → Call

-- No connection is beyond CONN_CLOSED.
abbrev pub IsIdle : Net → Type 0
IsIdle n = (c : Ptr) → (n.conn c).state ≤ conn_closed

module _ (sizeof_handle fuel : ℕ) where
  -- One call, of which the memory and the ports remain.
  unfoldable pub perform : Call → Net × Ports → Run (Net × Ports)
  perform (socket_call fresh setup queuelen egroup domain type protocol) (n, ps) =
      and_then (socket sizeof_handle fresh setup queuelen egroup domain type protocol n)
        (λ (s, m). ok (m, ps))
  perform (bind_call sock port) (n, ps) = and_then (bind sock port n ps) (λ (rc, m). ok (m, ps))
  perform (listen_call fresh setup sock backlog) (n, ps) =
      and_then (listen sizeof_handle fuel fresh setup sock backlog n ps)
        (λ (rc, m, ps1). ok (m, ps1))
  perform (accept_call lock wait sock timeout) (n, ps) =
      and_then (accept lock wait sock timeout n) (λ (s, m). ok (m, ps))
  perform (connect_call sock port addr) (n, ps) = ok ((connect sock port addr n).1, ps)

  unfoldable pub perform_all : List Call → Net × Ports → Run (Net × Ports)
  perform_all [] s = ok s
  perform_all (call ∷ calls) s = and_then (perform call s) (λ s1. perform_all calls s1)

abbrev Idle1 {ℓ} : {A : Type ℓ} → A × Net → Type 0
Idle1 (a, m) = IsIdle m

abbrev Idle2 : ℕ × Net × Ports → Type 0
Idle2 (rc, m, ps) = IsIdle m

abbrev pub Idle0 : Net × Ports → Type 0
Idle0 (m, ps) = IsIdle m

set_conn-IsIdle :
    (c : Ptr) (v : Conn) (n : Net) → v.state ≤ conn_closed → IsIdle n → IsIdle (set_conn c v n)
set_conn-IsIdle c v n h idle d = ground (arith, h, idle d)

check_port-Idle :
    (sock : Ptr) (n : Net) (ps : Ports) → IsIdle n → AllOk (Idle1 {A = ℕ}) (check_port sock n ps)
unfolding check_port
check_port-Idle sock n ps idle = ground (arith, idle)

bind-Idle :
    (sock : Ptr) (port : ℕ) (n : Net) (ps : Ports)
    → IsIdle n
    → AllOk (Idle1 {A = ℕ}) (bind sock port n ps)
unfolding bind check_port
bind-Idle sock port n ps idle = ground (arith, idle)

connect-Idle :
    (sock : Ptr) (port addr : ℕ) (n : Net) → IsIdle n → IsIdle (connect sock port addr n).1
unfolding connect
connect-Idle sock port addr n idle = ground (arith, idle)

adopt-Idle :
    (sock : Ptr) (child : Option Ptr) (n : Net)
    → IsIdle n
    → AllOk (Idle1 {A = Ptr}) (adopt sock child n)
unfolding adopt
adopt-Idle sock none n idle = tt
adopt-Idle sock (some child) n idle = ground (arith, idle)

accept-Idle :
    (lock : ℕ) (wait : Queue Ptr → WaitResult × Queue Ptr) (sock : Ptr) (timeout : ℕ) (n : Net)
    → IsIdle n
    → AllOk (Idle1 {A = Ptr}) (accept lock wait sock timeout n)
unfolding accept
accept-Idle lock wait sock timeout n idle =
    let (rc, child, q) = pop lock wait (n.queues (n.conn sock).peer) timeout in
    ground (arith, idle, adopt-Idle sock child (set_queue (n.conn sock).peer q n) idle)

-- The search for a socket's place changes no connection.
enlist_before-Idle :
    (sock : Ptr) (n : Net) (place : Option Ptr)
    → IsIdle n
    → AllOk IsIdle (enlist_before sock n place)
unfolding enlist_before
enlist_before-Idle sock n none idle = idle
enlist_before-Idle sock n (some sk) idle =
    AllOk-and_then IsIdle (access (insert_before sock sk n.links)) _ (λ m. idle)

enlist_in-Idle :
    (fuel : ℕ) (sock head : Ptr) (n : Net) (empty : Bool)
    → IsIdle n
    → AllOk IsIdle (enlist_in fuel sock head n empty)
unfolding enlist_in
enlist_in-Idle fuel sock head n true idle =
    AllOk-and_then IsIdle (access (add sock head n.links)) _ (λ m. idle)
enlist_in-Idle fuel sock head n false idle =
    AllOk-and_then IsIdle
      (list_for fuel (λ sk. ltb (n.conn sk).attr.priority (n.conn sock).attr.priority) head n.links)
      _ (λ place. enlist_before-Idle sock n place idle)

listen_with-Idle :
    (fuel : ℕ) (fresh sock : Ptr) (n : Net) (ps : Ports) (created : Option (Queue Ptr))
    → IsIdle n
    → AllOk Idle2 (listen_with fuel fresh sock n ps created)
unfolding listen_with enlist
listen_with-Idle fuel fresh sock n ps none idle = ground (arith, idle)
listen_with-Idle fuel fresh sock n ps (some q) idle =
    AllOk-and_then_of IsIdle Idle2 _ _
      (AllOk-and_then IsIdle (access (is_empty (sockets ps (n.conn sock).attr.lport) n.links)) _
        (λ empty. enlist_in-Idle fuel sock _ _ empty (set_conn-IsIdle sock _ n (idle sock) idle)))
      (λ n1 idle1. idle1)

listen-Idle :
    (sizeof_handle fuel : ℕ) (fresh : Ptr) (setup : Bool) (sock : Ptr) (backlog : ℤ) (n : Net)
    (ps : Ports)
    → IsIdle n
    → AllOk Idle2 (listen sizeof_handle fuel fresh setup sock backlog n ps)
unfolding listen
listen-Idle sizeof_handle fuel fresh setup sock backlog n ps idle =
    let made = create sizeof_handle (λ size. fresh) setup null backlog sizeof_ptr in
    ground (arith, idle, listen_with-Idle fuel fresh sock n ps made idle)

with_queue-Idle :
    (fresh c : Ptr) (n : Net) (created : Option (Queue Ptr))
    → IsIdle n
    → IsIdle (with_queue fresh c n created).1
unfolding with_queue
with_queue-Idle fresh c n none idle = idle
with_queue-Idle fresh c n (some q) idle = set_conn-IsIdle c _ n (idle c) idle

ensure_queue-Idle :
    (sizeof_handle fresh : ℕ) (setup : Bool) (len : ℤ) (c : Ptr) (n : Net)
    → IsIdle n
    → IsIdle (ensure_queue sizeof_handle fresh setup len c n).1
unfolding ensure_queue
ensure_queue-Idle sizeof_handle fresh setup len c n idle =
    let made = create sizeof_handle (λ size. fresh) setup null len sizeof_ptr in
    of_branches (λ (found, m). IsIdle m) _ (with_queue-Idle fresh c n made idle) idle

ensure_egroup-Idle : (egroup c : Ptr) (n : Net) → IsIdle n → IsIdle (ensure_egroup egroup c n).1
unfolding ensure_egroup
ensure_egroup-Idle egroup c n idle =
    of_branches (λ (found, m). IsIdle m) _ (set_conn-IsIdle c _ n (idle c) idle) idle

prepare-Idle :
    (sizeof_handle fresh : ℕ) (setup : Bool) (len : ℤ) (egroup : Ptr) (n : Net) (found : Option Ptr)
    → IsIdle n
    → AllOk (Idle1 {A = Ptr}) (prepare sizeof_handle fresh setup len egroup n found)
unfolding prepare reset_conn
prepare-Idle sizeof_handle fresh setup len egroup n none idle = idle
prepare-Idle sizeof_handle fresh setup len egroup n (some c) idle =
    let n1 = (ensure_queue sizeof_handle fresh setup len c n).1 in
    let idle1 = ensure_queue-Idle sizeof_handle fresh setup len c n idle in
    let idle2 = ensure_egroup-Idle egroup c n1 idle1 in
    let n2 = (ensure_egroup egroup c n1).1 in
    let ends : conn_closed ≤ conn_closed = omega arith in
    let idle3 : IsIdle (reset_conn c n2) = set_conn-IsIdle c _ n2 ends idle2 in
    let given =
      of_branches (Idle1 {A = Ptr}) (ensure_egroup egroup c n1).0 {x = (c, reset_conn c n2)}
        {y = (null, n2)} idle3 idle2 in
    of_branches (Idle1 {A = Ptr}) (ensure_queue sizeof_handle fresh setup len c n).0
      {y = (null, n1)} given idle1

socket-Idle :
    (sizeof_handle fresh : ℕ) (setup : Bool) (len : ℤ) (egroup domain type protocol : ℕ) (n : Net)
    → IsIdle n
    → AllOk (Idle1 {A = Ptr}) (socket sizeof_handle fresh setup len egroup domain type protocol n)
unfolding socket conn_alloc
socket-Idle sizeof_handle fresh setup len egroup domain type protocol n idle =
    let found : AllOk (Idle1 {A = Ptr}) (conn_alloc sizeof_handle fresh setup len egroup n) =
      AllOk-and_then (Idle1 {A = Ptr}) _ _
        (λ f. prepare-Idle sizeof_handle fresh setup len egroup n f idle) in
    ground (arith, idle, found)

module _ (sizeof_handle fuel : ℕ) where
  perform-Idle :
      (call : Call) (n : Net) (ps : Ports)
      → IsIdle n
      → AllOk Idle0 (perform sizeof_handle fuel call (n, ps))
  unfolding perform
  perform-Idle (socket_call fresh setup queuelen egroup domain type protocol) n ps idle =
      AllOk-and_then_of Idle1 Idle0 _ _
        (socket-Idle sizeof_handle fresh setup queuelen egroup domain type protocol n idle)
        (λ (s, m) h. h)
  perform-Idle (bind_call sock port) n ps idle =
      AllOk-and_then_of Idle1 Idle0 _ _ (bind-Idle sock port n ps idle) (λ (rc, m) h. h)
  perform-Idle (listen_call fresh setup sock backlog) n ps idle =
      AllOk-and_then_of Idle2 Idle0 _ _
        (listen-Idle sizeof_handle fuel fresh setup sock backlog n ps idle) (λ (rc, m, ps1) h. h)
  perform-Idle (accept_call lock wait sock timeout) n ps idle =
      AllOk-and_then_of Idle1 Idle0 _ _ (accept-Idle lock wait sock timeout n idle) (λ (s, m) h. h)
  perform-Idle (connect_call sock port addr) n ps idle = connect-Idle sock port addr n idle

  -- Whatever sockets a client makes, binds, has listen, accepts or connects, no connection comes to be open,
  -- to listen or to be connected: none is beyond CONN_CLOSED.
  pub perform_all-IsIdle :
      (calls : List Call) (n : Net) (ps : Ports)
      → IsIdle n
      → AllOk Idle0 (perform_all sizeof_handle fuel calls (n, ps))
  unfolding perform_all
  perform_all-IsIdle [] n ps idle = idle
  perform_all-IsIdle (call ∷ calls) n ps idle =
      AllOk-and_then_of Idle0 Idle0 _ _ (perform-Idle call n ps idle)
        (λ (m, ps1) h. perform_all-IsIdle calls m ps1 h)

-- Where no connection is beyond CONN_CLOSED, `lsp_conn_close` does nothing and reports success, so that
-- the connection stays in the list of its port.
pub close_idle :
    (lock : ℕ → ℕ) (destroyed fuel : ℕ) (c : Ptr) (n : Net)
    → IsIdle n
    → conn_close lock destroyed fuel c n ≡ ok (err_none, n)
unfolding conn_close
close_idle lock destroyed fuel c n idle =
    let early : leb (n.conn c).state conn_closed ≡ true = ground (arith, idle c) in rw early
