-- ===== src/Port/Bind.antt =====
-- `lsp_port_init`, `lsp_port_get` and `lsp_bind`.
use liblsp.Prelude.{
  Bool-cases, inl, inr, ℕ, ◌≤◌, ◌≡◌, ◌≢◌, false, test_of_ne, arith, ◌==◌, ltb, Ptr, null, fault,
}
use liblsp.Types.{packet_port_max, port_any}
use liblsp.Conn.{Net}
use liblsp.Port.{Ports, bind, check_port}

-- A socket that was not bound before has the wildcard as its port. To bind it to a port that
-- exists makes `lsp_bind` read the state of port 255, which lies behind the array of ports.
pub bind_reads_outside :
    (sock : Ptr) (port : ℕ) (n : Net) (ps : Ports)
    → sock ≢ null
    → (n.conn sock).attr.lport ≡ port_any
    → port ≤ packet_port_max
    → bind sock port n ps ≡ fault
unfolding bind check_port
bind_reads_outside sock port n ps ne fresh h =
    let named : (port == port_any) ≡ false = ground arith in
    let exists : ltb packet_port_max port ≡ false = ground arith in
    elim (Bool-cases (ps.ports == null)) [
      | inl unset ↦ rw (test_of_ne sock null ne, named, exists, unset)
      | inr made ↦ rw (test_of_ne sock null ne, named, exists, made, fresh)
    ]
