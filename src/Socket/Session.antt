-- ===== src/Socket/Session.antt =====
-- src/lsp_socket.c, lsp_port.c and lsp_conn.c together: what a client sees that makes sockets, calls
-- on those that it holds, and closes them.
pub mod Owned
pub mod Answers
use liblsp.Prelude.{
  ℕ, ◌+◌, ◌<◌, ◌≡◌, Bool, true, false, List, [], ◌∷◌, ◌==◌, ltb, if◌then◌else◌, Ptr, null, Run, ok,
  and_then, has,
}
use liblsp.Types.{
  err_none, err_invalid, err_port_in_use, err_port_invalid, packet_port_max, port_any,
}
use liblsp.Conn.{Net}
use liblsp.Conn.Lifetime.{drop_conn}
use liblsp.Port.{Ports, bind, listen, port_closed}
use liblsp.Socket.{socket, accept, connect, closesocket}
use liblsp.Socket.Idle.{Call, socket_call, bind_call, listen_call, accept_call, connect_call}

-- What a client does: one of the calls, or `lsp_closesocket`.
pub data Action : Type 0 where
  call_action : Call → Action
  close_action : (sock : Ptr) → Action

-- What it is told. It makes no call on a socket that it does not hold.
pub data Reply : Type 0 where
  socket_reply : Ptr → Reply
  int_reply : ℕ → Reply
  void_reply : Reply
  not_held : Reply

-- The memory, the ports, and the sockets that the client holds.
abbrev pub Client : Type 0
Client = Net × Ports × List Ptr

abbrev pub if_held : Ptr → Client → Run (Reply × Client) → Run (Reply × Client)
if_held sock (n, ps, held) r = if has sock held then r else ok (not_held, (n, ps, held))

abbrev pub take : Ptr → List Ptr → List Ptr
take c held = if c == null then held else c ∷ held

-- `rc` and `destroyed` are what `lsp_conn_free` finds where nothing was stored.
module _ (sizeof_handle fuel : ℕ) (rc : Ptr → ℕ) (lock : ℕ → ℕ) (destroyed : ℕ) where
  unfoldable pub serve : Call → Client → Run (Reply × Client)
  serve (socket_call fresh setup queuelen egroup domain type protocol) (n, ps, held) =
      and_then (socket sizeof_handle fresh setup queuelen egroup domain type protocol n)
        (λ (c, m). ok (socket_reply c, (m, ps, take c held)))
  serve (bind_call sock port) (n, ps, held) =
      if_held sock (n, ps, held)
        (and_then (bind sock port n ps) (λ (r, m). ok (int_reply r, (m, ps, held))))
  serve (listen_call fresh setup sock backlog) (n, ps, held) =
      if_held sock (n, ps, held)
        (and_then (listen sizeof_handle fuel fresh setup sock backlog n ps)
          (λ (r, m, ps1). ok (int_reply r, (m, ps1, held))))
  serve (accept_call l wait sock timeout) (n, ps, held) =
      if_held sock (n, ps, held)
        (and_then (accept l wait sock timeout n)
          (λ (c, m). ok (socket_reply c, (m, ps, take c held))))
  serve (connect_call sock port addr) (n, ps, held) =
      let (r, m) = connect sock port addr n in
      if_held sock (n, ps, held) (ok (int_reply r, (m, ps, held)))

  unfoldable pub act : Action → Client → Run (Reply × Client)
  act (call_action call) s = serve call s
  act (close_action sock) (n, ps, held) =
      if_held sock (n, ps, held)
        (and_then (closesocket rc lock destroyed 1 sock n)
          (λ m. ok (void_reply, (m, ps, drop_conn sock held))))

  unfoldable pub act_all : List Action → Client → Run (List Reply × Client)
  act_all [] s = ok ([], s)
  act_all (a ∷ actions) s =
      and_then (act a s)
        (λ (reply, s1). and_then (act_all actions s1) (λ (rest, s2). ok (reply ∷ rest, s2)))

-- What the client is told, and what it holds then, without the memory: only `lsp_socket` is free to
-- give a new socket or none.
abbrev pub bind_answer : Ports → (port : ℕ) → ℕ
bind_answer ps port =
    if port == port_any
    then (if ps.state (packet_port_max + 1) == port_closed then err_none else err_port_in_use)
    else err_port_invalid

abbrev pub connect_answer : (port : ℕ) → ℕ
connect_answer port =
    if port == port_any
    then err_none
    else if ltb packet_port_max port
    then err_port_invalid
    else err_none

abbrev pub told : Ptr → List Ptr → Reply → Reply
told sock held reply = if has sock held then reply else not_held

pub Answers : Ports → Action → (held : List Ptr) → Reply → (rest : List Ptr) → Type 0
Answers ps (call_action (socket_call fresh setup queuelen egroup domain type protocol)) held reply
      rest =
    (c : Ptr) × (reply ≡ socket_reply c) × (has c held ≡ false) × (rest ≡ take c held)
Answers ps (call_action (bind_call sock port)) held reply rest =
    (reply ≡ told sock held (int_reply (bind_answer ps port))) × (rest ≡ held)
Answers ps (call_action (listen_call fresh setup sock backlog)) held reply rest =
    (reply ≡ told sock held (int_reply err_invalid)) × (rest ≡ held)
Answers ps (call_action (accept_call l wait sock timeout)) held reply rest =
    (reply ≡ told sock held (socket_reply null)) × (rest ≡ held)
Answers ps (call_action (connect_call sock port addr)) held reply rest =
    (reply ≡ told sock held (int_reply (connect_answer port))) × (rest ≡ held)
Answers ps (close_action sock) held reply rest =
    (reply ≡ told sock held void_reply) × (rest ≡ drop_conn sock held)

-- The same of a sequence: the replies come one for each action.
pub AllAnswers : Ports → List Action → (held : List Ptr) → List Reply → (rest : List Ptr) → Type 0
AllAnswers ps [] held [] rest = rest ≡ held
AllAnswers ps [] held (reply ∷ replies) rest = ⊥
AllAnswers ps (a ∷ actions) held [] rest = ⊥
AllAnswers ps (a ∷ actions) held (reply ∷ replies) rest =
    (next : List Ptr) × Answers ps a held reply next × AllAnswers ps actions next replies rest

-- No bind names a port that exists.
unfoldable pub IsWild : Action → Type 0
IsWild (call_action (bind_call sock port)) = packet_port_max < port
IsWild (call_action (socket_call fresh setup queuelen egroup domain type protocol)) = Unit
IsWild (call_action (listen_call fresh setup sock backlog)) = Unit
IsWild (call_action (accept_call l wait sock timeout)) = Unit
IsWild (call_action (connect_call sock port addr)) = Unit
IsWild (close_action sock) = Unit

unfoldable pub AllWild : List Action → Type 0
AllWild [] = Unit
AllWild (a ∷ actions) = IsWild a × AllWild actions
