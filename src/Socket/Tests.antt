-- ===== src/Socket/Tests.antt =====
-- The theorems about sockets, on a port with two of them.
use liblsp.Prelude.{
  ◌≡◌, ◌≤◌, ◌<◌, ◌⊎◌, refl, true, [], ◌∷◌, ok, fault, arith, pos, AllOk, List, Ptr, ◌==◌,
  if◌then◌else◌,
}
use liblsp.Types.{err_none, err_invalid, packet_port_max, port_any, af_lsp, sock_raw, lspproto_lsp}
use liblsp.Queue.{failed}
use liblsp.Conn.{Net, def_conn_attr, conn_free_state}
use liblsp.Conn.Sample.{port_net, idle_conn}
use liblsp.Port.{Ports, port_closed}
use liblsp.Socket.Unreachable.{bind_and_listen, bind_then_listen}
use liblsp.Socket.Session.{
  Action, Reply, call_action, close_action, act_all, AllAnswers, AllWild, IsWild,
}
use liblsp.Socket.Session.Owned.{IsOwned}
use liblsp.Socket.Session.Answers.{act_all-Answers}
use liblsp.Socket.Idle.{
  socket_call, accept_call, connect_call, bind_call, listen_call, IsIdle, Idle0, perform_all,
  perform_all-IsIdle,
}

abbrev closed_ports : Ports
closed_ports = record { ports = 92; state = λ i. port_closed }

IsIdle-net : IsIdle port_net
IsIdle-net c = omega arith

bind_then_listen_example :
    ((packet_port_max < 7)
      × (n1 : Net) × (bind_and_listen 200 5 800 true 5 (pos 3) 7 port_net closed_ports
          ≡ ok (err_invalid, n1, closed_ports)))
    ⊎ ((7 ≤ packet_port_max)
        × (bind_and_listen 200 5 800 true 5 (pos 3) 7 port_net closed_ports ≡ fault))
bind_then_listen_example =
    bind_then_listen 200 5 800 true 5 (pos 3) closed_ports (omega arith) 7 port_net (omega arith)
      refl

perform_all-IsIdle_example : AllOk Idle0 (
    perform_all 200 5
      (bind_call 4 255 ∷ listen_call 800 true 4 (pos 3) ∷ [])
      (port_net, closed_ports))
perform_all-IsIdle_example =
    perform_all-IsIdle 200 5 (bind_call 4 255 ∷ listen_call 800 true 4 (pos 3) ∷ []) port_net
      closed_ports IsIdle-net

-- A pool of 32 of which the connection at 5 is held, and a client that makes a socket and uses both.
abbrev session_net : Net
session_net = record port_net {
  conn_max = 32;
  conn = λ c.
      if c == 5
      then idle_conn def_conn_attr
      else record (idle_conn def_conn_attr) { state = conn_free_state };
}

session_net-IsOwned : IsOwned session_net (5 ∷ [])
session_net-IsOwned = record {
  in_pool = record {
    large = omega arith;
    no_server = λ d e. ground (arith, e);
    in_use = λ d i. ground (arith, i);
    once = (refl, tt);
  };
  no_null = refl;
  unbound = λ d i. ground (arith, i);
}

abbrev session : List Action
session =
    call_action (socket_call 800 true (pos 4) 900 af_lsp sock_raw lspproto_lsp)
    ∷ call_action (bind_call 5 port_any)
    ∷ call_action (listen_call 801 true 5 (pos 3))
    ∷ call_action (accept_call err_none (λ q. (failed, q)) 5 9)
    ∷ call_action (connect_call 1000 7 12)
    ∷ close_action 5
    ∷ call_action (bind_call 5 port_any)
    ∷ []

act_all-Answers_example :
    (replies : List Reply) × (m : Net) × (rest : List Ptr) × (act_all 200 5
        (λ c. err_none)
        (λ i. err_none)
        0
        session
        (session_net, closed_ports, 5 ∷ [])
      ≡ ok (replies, (m, closed_ports, rest)))
    × AllAnswers closed_ports session (5 ∷ []) replies rest
    × IsOwned m rest
    × (m.links ≡ session_net.links)
unfolding AllWild IsWild
act_all-Answers_example =
    act_all-Answers 200 5 (λ c. err_none) (λ i. err_none) 0 session closed_ports (omega arith)
      (tt, (omega arith, (tt, (tt, (tt, (tt, (omega arith, tt))))))) session_net-IsOwned
