-- ===== src/Conn/Close.antt =====
-- src/lsp_conn.c: the receive queue of a connection, and the end of a connection.
use liblsp.Prelude.{
  ℕ, zero, suc, true, false, Option, none, some, ◌==◌, leb, if◌then◌else◌, Ptr, null, Run, ok,
  fault, out_of_fuel, and_then, access,
}
use liblsp.Types.{err_none, err_invalid, err_queue_empty, default_queue_timeout_ms}
use liblsp.LspList.{del}
use liblsp.Queue.{Queue, WaitResult, failed, push, pop, destroy}
use liblsp.Conn.{Net, set_conn, set_queue, release, conn_free_state, conn_closed, conn_server}

-- A queue call with a timeout of 0 does not wait.
abbrev pub no_wait : Queue Ptr → WaitResult × Queue Ptr
no_wait q = (failed, q)

-- A variable after a call that may store something in it.
abbrev pub stored : Option Ptr → Option Ptr → Option Ptr
stored none old = old
stored (some p) old = some p

-- `lsp_buffer_free` of a pointer that nothing was stored in is a fault.
unfoldable pub buffer_free : Option Ptr → Net → Run Net
buffer_free none n = fault
buffer_free (some b) n = ok (release b n)

-- The loop of `lsp_conn_rxq_flush`, with what `b` holds. `lock i` is the result of the lock in the i-th
-- call of `lsp_queue_pop`.
unfoldable pub flush_loop : (lock : ℕ → ℕ) → (fuel i : ℕ) → Option Ptr → Ptr → Net → Run Net
flush_loop lock zero i b handle n = out_of_fuel
flush_loop lock (suc fuel) i b handle n =
    let (rc, popped, q) = pop (lock i) no_wait (n.queues handle) 0 in
    elim (rc == err_none) [
      | true ↦ ok (set_queue handle q n)
      | false ↦ elim (buffer_free (stored popped b) (set_queue handle q n)) [
        | ok m ↦ flush_loop lock fuel (suc i) (stored popped b) handle m
        | fault ↦ fault
        | out_of_fuel ↦ out_of_fuel
      ]
    ]

-- `lsp_conn_rxq_flush`
unfoldable pub rxq_flush : (lock : ℕ → ℕ) → (fuel : ℕ) → Ptr → Net → Run (ℕ × Net)
rxq_flush lock fuel c n =
    let handle = (n.conn c).rx_queue in
    if handle == null
    then ok (err_invalid, n)
    else and_then (flush_loop lock fuel 0 none handle n) (λ m. ok (err_none, m))

-- `lsp_conn_rxq_push`
unfoldable pub rxq_push :
    (lock : ℕ) → (wait : Queue Ptr → WaitResult × Queue Ptr) → Ptr → (buffer : Ptr) → Net → ℕ × Net
rxq_push lock wait c buffer n =
    let handle = (n.conn c).rx_queue in
    let (rc, q) = push lock wait (n.queues handle) buffer default_queue_timeout_ms in
    (rc, set_queue handle q n)

-- `conn->egroup = NULL`, after `lsp_egroup_destroy`.
abbrev pub drop_egroup : (destroyed : ℕ) → Ptr → Net → Net
drop_egroup destroyed c n =
    if destroyed == err_none then set_conn c (record (n.conn c) { egroup = null }) n else n

-- `lsp_conn_close`. `destroyed` stands for the value of `lsp_egroup_destroy`, which is declared void.
unfoldable pub conn_close :
    (lock : ℕ → ℕ) → (destroyed : ℕ) → (fuel : ℕ) → Ptr → Net → Run (ℕ × Net)
conn_close lock destroyed fuel c n =
    if leb (n.conn c).state conn_closed
    then ok (err_none, n)
    else and_then (access (del c n.links)) (λ m.
      let closed =
        set_conn c (record (n.conn c) { state = conn_closed }) (record n { links = m }) in
      and_then (rxq_flush lock fuel c closed) (λ (rc, n1). ok (
        if rc == err_none
        then (destroyed, drop_egroup destroyed c (release (n1.conn c).egroup n1))
        else (rc, n1))))

-- `lsp_conn_free`, and its loop over the children that no `lsp_accept` took. `rc` is what the variable
-- of that name holds where nothing was stored in it; `sock` likewise, until a child is popped.
unfoldable mutual
  pub conn_free :
      (rc : Ptr → ℕ) → (lock : ℕ → ℕ) → (destroyed : ℕ) → (fuel : ℕ) → Ptr → Net → Run (ℕ × Net)
  conn_free rc lock destroyed zero c n = out_of_fuel
  conn_free rc lock destroyed (suc fuel) c n =
      and_then
        (if (n.conn c).state == conn_closed
          then ok (rc c, n)
          else conn_close lock destroyed (suc fuel) c n)
        (λ (r, n1). elim (r == err_none) [
          | false ↦ ok (r, n1)
          | true ↦
              and_then
                (elim ((n1.conn c).type == conn_server) [
                  | false ↦ ok n1
                  | true ↦ free_children rc lock destroyed fuel c none n1
                ])
                (λ n2. ok (r, set_conn c (record (n2.conn c) { state = conn_free_state }) n2))
        ])

  pub free_children :
      (rc : Ptr → ℕ)
      → (lock : ℕ → ℕ) → (destroyed : ℕ) → (fuel : ℕ) → Ptr
      → (sock : Option Ptr) → Net
      → Run Net
  free_children rc lock destroyed zero c sock n = out_of_fuel
  free_children rc lock destroyed (suc fuel) c sock n =
      let handle = (n.conn c).peer in
      let (r, popped, q) = pop (lock fuel) no_wait (n.queues handle) 0 in
      elim (r == err_queue_empty) [
        | true ↦ ok (if (destroy q).1 then release handle n else n)
        | false ↦ elim (stored popped sock) [
          | none ↦ fault
          | some child ↦
              and_then (conn_free rc lock destroyed fuel child (set_queue handle q n))
                (λ (r1, n1). free_children rc lock destroyed fuel c (some child) n1)
        ]
      ]
