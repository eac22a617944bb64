-- ===== src/Port/Tests.antt =====
-- The theorems about `lsp_port_init`, and about listening and accepting, on a port with two sockets.
use liblsp.Prelude.{null, ◌≡◌, refl, true, [], ◌∷◌, ok, arith, pos, Ptr, ℕ, ◌<◌}
use liblsp.Types.{aligned_size, err_none}
use liblsp.LspList.{Links}
use liblsp.LspList.Ring.{IsRing}
use liblsp.Conn.{Net}
use liblsp.Socket.{accept}
use liblsp.Socket.Unreachable.{accept_after_listen}
use liblsp.Queue.{Queue, failed}
use liblsp.Queue.Ring.{Holds}
use liblsp.Conn.Sample.{port_net, port_links, port-IsRing}
use liblsp.Port.{Ports, listen, set_state, port_open, port_closed, port_count, sockets, port_init}
use liblsp.Port.Init.{port_init-IsRing}
use liblsp.Port.Listen.{listening, listeners, lower, listen-listeners}

-- Port 0 has its list head at 100.
abbrev closed_ports : Ports
closed_ports = record { ports = 92; state = λ i. port_closed }

listen-listeners_example :
    (q : Queue Ptr) × (m : Links) × (listen 200 5 800 true 4 (pos 3) port_net closed_ports
      ≡ ok (
        err_none,
        record (listening 4 800 q port_net) { links = m },
        set_state 0 port_open closed_ports,
      ))
    × IsRing m 100 (listeners (lower port_net 4) 4 (2 ∷ 3 ∷ []))
    × Holds q []
    × (q.queue_size ≡ 3)
unfolding aligned_size
listen-listeners_example =
    listen-listeners 200 5 800 4 3 port_net closed_ports (2 ∷ 3 ∷ []) (omega arith) (omega arith)
      (omega arith) (omega arith) (omega arith) refl port-IsRing (omega arith) refl

-- Before `lsp_port_init`.
abbrev no_ports : Ports
no_ports = record closed_ports { ports = null }

port_init-IsRing_example :
    (ps' : Ports) × (m' : Links) × (port_init 92 port_links no_ports ≡ ok (err_none, ps', m'))
    × ((k : ℕ) → k < port_count → (ps'.state k ≡ port_closed) × IsRing m' (sockets ps' k) [])
port_init-IsRing_example =
    port_init-IsRing 92 port_links no_ports refl (omega arith) (λ k h. ground arith)

-- The socket at 4 listens and accepts.
accept_after_listen_example :
    (n1 : Net) × (ps1 : Ports) × (listen 200 5 800 true 4 (pos 3) port_net closed_ports
      ≡ ok (err_none, n1, ps1))
    × (accept err_none (λ q. (failed, q)) 4 9 n1 ≡ ok (null, n1))
unfolding aligned_size
accept_after_listen_example =
    accept_after_listen 200 5 800 4 3 port_net closed_ports (2 ∷ 3 ∷ []) err_none (λ q. (failed, q))
      9 (omega arith) (omega arith) (omega arith) (omega arith) (omega arith) refl port-IsRing
      (omega arith) refl
