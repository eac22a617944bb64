-- ===== src/Socket/Unreachable.antt =====
-- What follows a bind: whether a socket can come to listen, and to accept.
use liblsp.Prelude.{
  size_mod, ◌*◌, ℕ, ◌+◌, ◌≤◌, ◌<◌, ◌≡◌, ◌≢◌, refl, Bool, true, false, inl, inr, ◌⊎◌, Bool-cases,
  arith, ◌==◌, ltb, Ptr, null, Run, ok, fault, and_then, pos, ℤ, test_of_ne, test_of_eq, List, ◌∷◌,
  has, length, ◌^◌,
}
use liblsp.Types.{aligned_size, sizeof_ptr, err_none, err_invalid, packet_port_max, port_any}
use liblsp.Queue.{Queue, WaitResult}
use liblsp.Conn.{Net, set_conn}
use liblsp.Port.{Ports, bind, check_port, listen, port_closed, sockets}
use liblsp.Port.Listen.{listen-listeners}
use liblsp.LspList.{valid}
use liblsp.LspList.Ring.{IsRing}
use liblsp.Port.Bind.{bind_reads_outside}
use liblsp.Socket.{accept}

-- `bind` of a fresh socket, and then `listen`.
abbrev pub bind_and_listen :
    (sizeof_handle fuel : ℕ)
    → (fresh : Ptr) → Bool
    → Ptr
    → (backlog : ℤ) → (port : ℕ) → Net
    → Ports
    → Run (ℕ × Net × Ports)
bind_and_listen sizeof_handle fuel fresh setup sock backlog port n ps =
    and_then (bind sock port n ps)
      (λ (rc, n1). listen sizeof_handle fuel fresh setup sock backlog n1 ps)

-- The memory after a bind to the wildcard.
abbrev bound_any : Ptr → Net → Net
bound_any sock n =
    set_conn sock
      (record (n.conn sock) { attr = record (n.conn sock).attr { lport = packet_port_max + 1 } }) n

module _ (sizeof_handle fuel : ℕ) (fresh : Ptr) (setup : Bool) (sock : Ptr) (backlog : ℤ)
    (ps : Ports) (ne : sock ≢ null) where
  pub listen_refused :
      (n : Net)
      → packet_port_max < (n.conn sock).attr.lport
      → listen sizeof_handle fuel fresh setup sock backlog n ps ≡ ok (err_invalid, n, ps)
  unfolding listen
  listen_refused n h =
      let past : ltb packet_port_max (n.conn sock).attr.lport ≡ true = ground arith in
      rw (test_of_ne sock null ne, past)

  check_port_any :
      (n : Net)
      → ps.ports ≢ null
      → (n.conn sock).attr.lport ≡ packet_port_max + 1
      → and_then
          (check_port sock n ps)
          (λ (rc, n1). listen sizeof_handle fuel fresh setup sock backlog n1 ps)
        ≡ ok (err_invalid, n, ps)
  unfolding check_port
  check_port_any n made e = elim (Bool-cases (ps.state (packet_port_max + 1) == port_closed)) [
    | inl closed ↦
        rw (test_of_ne ps.ports null made, e, closed, listen_refused n (omega (arith, e)))
    | inr open_state ↦
        rw (test_of_ne ps.ports null made, e, open_state, listen_refused n (omega (arith, e)))
  ]

  -- Where the ports are made, a socket that was not bound before does not come to listen by `lsp_bind` and `lsp_listen`: with the
  -- wildcard, or a port that does not exist, `lsp_listen` gives LSP_ERR_INVALID and opens no port; with a
  -- port that exists, `lsp_bind` reads behind the array of ports.
  pub bind_then_listen :
      (port : ℕ) (n : Net)
      → ps.ports ≢ null
      → (n.conn sock).attr.lport ≡ port_any
      → ((packet_port_max < port)
          × (n1 : Net) × (bind_and_listen sizeof_handle fuel fresh setup sock backlog port n ps
              ≡ ok (err_invalid, n1, ps)))
        ⊎ ((port ≤ packet_port_max)
            × (bind_and_listen sizeof_handle fuel fresh setup sock backlog port n ps ≡ fault))
  unfolding bind
  bind_then_listen port n made unbound = elim (Bool-cases (ltb packet_port_max port)) [
    | inr exists ↦
        let h : port ≤ packet_port_max = ground arith in
        inr (h, rw (bind_reads_outside sock port n ps ne unbound h))
    | inl past ↦ elim (Bool-cases (port == port_any)) [
      | inl any ↦ inl (
        ground arith,
        bound_any sock n,
        rw (test_of_ne sock null ne, any) (check_port_any (bound_any sock n) made (ground arith)),
      )
      | inr named ↦ inl (
        ground arith,
        n,
        rw (test_of_ne sock null ne, named, past, listen_refused n (omega (arith, unbound))),
      )
    ]
  ]

-- A socket that listens is not taken for a server: after `lsp_listen`, which succeeds on a port
-- that exists, by a socket that is not in its list, with memory for a queue of at least one child in a block
-- smaller than 2^64,
-- `lsp_accept` gives NULL at once, whatever stands in the queue of children.
pub accept_after_listen :
    (sizeof_handle fuel : ℕ) (fresh sock : Ptr) (backlog : ℕ) (n : Net) (ps : Ports) (xs : List Ptr)
    (lock : ℕ) (wait : Queue Ptr → WaitResult × Queue Ptr) (timeout : ℕ)
    → fresh ≢ null
    → 0 < backlog
    → backlog < 2 ^ 31
    → aligned_size sizeof_handle + backlog * sizeof_ptr < size_mod
    → (n.conn sock).attr.lport ≤ packet_port_max
    → valid n.links sock ≡ true
    → IsRing n.links (sockets ps (n.conn sock).attr.lport) xs
    → length xs ≤ fuel
    → has sock (sockets ps (n.conn sock).attr.lport ∷ xs) ≡ false
    → (n1 : Net) × (ps1 : Ports) × (listen sizeof_handle fuel fresh true sock (pos backlog) n ps
        ≡ ok (err_none, n1, ps1))
      × (accept lock wait sock timeout n1 ≡ ok (null, n1))
unfolding accept
accept_after_listen sizeof_handle fuel fresh sock backlog n ps xs lock wait timeout ne h0 h1 block p
      v r h out =
    let (q, m, e, ring, made, size) =
      listen-listeners sizeof_handle fuel fresh sock backlog n ps xs ne h0 h1 block p v r h out in
    let same : (sock == sock) ≡ true = test_of_eq sock sock refl in (_, _, e, rw same)
