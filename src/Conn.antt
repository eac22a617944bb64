-- ===== src/Conn.antt =====
-- src/lsp_conn.c: the pool of connections. A connection is named by its address in the pool; a queue
-- by its handle. `LSP_CONN_EGROUP_POOL` and `LSP_CONN_PERSISTENT_RXQUEUE` are 0, their defaults.
pub mod Alloc
pub mod Start
pub mod Pool
pub mod Server
pub mod Lifetime
pub mod Close
pub mod Flush
pub mod Shut
pub mod Sample
mod Tests
use liblsp.Prelude.{
  ℕ, zero, suc, ◌+◌, ◌*◌, ◌%◌, ◌&&◌, ltb, size_mod, Bool, true, false, not, Option, none, some,
  List, ◌∷◌, ◌==◌, leb, if◌then◌else◌, Ptr, null, Run, ok, fault, out_of_fuel, and_then, access,
  update, ℤ, pos, negsuc,
}
use liblsp.Types.{
  err_none, err_invalid, err_queue_empty, sizeof_ptr, timeout_max, port_any, addr_any,
  conn_prio_def, default_max_connections, default_queue_timeout_ms,
}
use liblsp.Conf.{Conf}
use liblsp.LspList.{Links, del}
use liblsp.Queue.{Queue, WaitResult, create, push, pop, destroy}

-- `lsp_conn_type_t` and `lsp_conn_state_t`: C lets a member of one be stored in the other.
abbrev pub conn_client : ℕ
conn_client = 0

abbrev pub conn_server : ℕ
conn_server = 1

abbrev pub conn_child : ℕ
conn_child = 2

abbrev pub conn_free_state : ℕ
conn_free_state = 0

abbrev pub conn_closed : ℕ
conn_closed = 1

abbrev pub conn_listen : ℕ
conn_listen = 3

-- `struct lsp_connattr_s`
pub record ConnAttr : Type 0 where
  pub priority : ℕ
  pub lport : ℕ
  pub laddr : ℕ
  pub rport : ℕ
  pub raddr : ℕ
  pub flags : ℕ

-- `struct lsp_conn_s`. `portlist` is in the memory of links, under the connection's address; `peer` is
-- the union of `children` and `parent`.
pub record Conn : Type 0 where
  pub type : ℕ
  pub state : ℕ
  pub attr : ConnAttr
  pub egroup : Ptr
  pub peer : Ptr
  pub rcv_timeout : ℕ
  pub snd_timeout : ℕ
  pub s_opt : ℕ
  pub timestamp : ℕ
  pub rx_queue : Ptr

-- The memory that connections live in: the pool, the links of their nodes, the queues, and the blocks
-- that were freed, the last one first.
pub record Net : Type 0 where
  pub conn_pool : Ptr
  pub conn_max : ℕ
  pub conn : Ptr → Conn
  pub links : Links
  pub queues : Ptr → Queue Ptr
  pub freed : List Ptr

-- `sizeof(lsp_conn_t)` on LP64.
abbrev pub sizeof_conn : ℕ
sizeof_conn = 112

-- `&conn_pool[i]`
abbrev pub slot : Net → ℕ → Ptr
slot n i = n.conn_pool + i * sizeof_conn

abbrev pub set_conn : Ptr → Conn → Net → Net
set_conn c v n = record n { conn = update n.conn c v }

abbrev pub set_queue : Ptr → Queue Ptr → Net → Net
set_queue p q n = record n { queues = update n.queues p q }

abbrev pub release : Ptr → Net → Net
release p n = record n { freed = p ∷ n.freed }

abbrev pub def_conn_attr : ConnAttr
def_conn_attr = record {
  priority = conn_prio_def;
  lport = port_any;
  laddr = addr_any;
  rport = port_any;
  raddr = addr_any;
  flags = 0;
}

-- The search of `lsp_conn_alloc`, with `left` iterations to go; a read behind the pool is a fault.
unfoldable pub find_free : (left i : ℕ) → Net → Run (Option Ptr)
find_free zero i n = ok none
find_free (suc left) i n = elim (leb n.conn_max i) [
  | true ↦ fault
  | false ↦ elim ((n.conn (slot n i)).state == conn_free_state) [
    | true ↦ ok (some (slot n i))
    | false ↦ find_free left (suc i) n
  ]
]

-- The last assignments of `lsp_conn_alloc`.
unfoldable pub reset_conn : Ptr → Net → Net
reset_conn c n =
    set_conn c
      (record (n.conn c) {
        state = conn_closed;
        peer = null;
        attr = def_conn_attr;
        rcv_timeout = timeout_max;
        snd_timeout = timeout_max;
        s_opt = 0;
      })
      n

-- `conn->egroup`, made where there is none. `egroup` is what `lsp_egroup_create` gives.
unfoldable pub ensure_egroup : (egroup : Ptr) → Ptr → Net → Bool × Net
ensure_egroup egroup c n =
    if (n.conn c).egroup == null
    then (not (egroup == null), set_conn c (record (n.conn c) { egroup = egroup }) n)
    else (true, n)

-- `conn->rx_queue`, with the queue that `lsp_queue_create` makes at `fresh`, if it makes one.
unfoldable pub with_queue : (fresh : Ptr) → Ptr → Net → Option (Queue Ptr) → Bool × Net
with_queue fresh c n none = (false, n)
with_queue fresh c n (some q) =
    (true, set_conn c (record (n.conn c) { rx_queue = fresh }) (set_queue fresh q n))

-- `conn->rx_queue`, made where there is none: whether there is one, and the memory. `setup` says whether
-- the mutex and the conditions of the queue could be initialised.
unfoldable pub ensure_queue :
    (sizeof_handle : ℕ) → (fresh : Ptr) → (setup : Bool) → ℤ → Ptr → Net → Bool × Net
ensure_queue sizeof_handle fresh setup conn_queuelen c n =
    if (n.conn c).rx_queue == null
    then with_queue fresh c n
        (create sizeof_handle (λ size. fresh) setup null conn_queuelen sizeof_ptr)
    else (true, n)

-- What `lsp_conn_alloc` does to the connection that it found, if it found one.
unfoldable pub prepare :
    (sizeof_handle : ℕ)
    → (fresh : Ptr) → Bool
    → ℤ
    → (egroup : Ptr) → Net
    → (found : Option Ptr) → Run (Ptr × Net)
prepare sizeof_handle fresh setup conn_queuelen egroup n none = ok (null, n)
prepare sizeof_handle fresh setup conn_queuelen egroup n (some c) =
    let (has_queue, n1) = ensure_queue sizeof_handle fresh setup conn_queuelen c n in
    let (has_egroup, n2) = ensure_egroup egroup c n1 in
    ok (if has_queue then (if has_egroup then (c, reset_conn c n2) else (null, n2)) else (null, n1))

-- `lsp_conn_alloc`
unfoldable pub conn_alloc :
    (sizeof_handle : ℕ)
    → (fresh : Ptr) → Bool
    → (conn_queuelen : ℤ) → (egroup : Ptr) → Net
    → Run (Ptr × Net)
conn_alloc sizeof_handle fresh setup conn_queuelen egroup n =
    and_then (find_free default_max_connections 0 n)
      (prepare sizeof_handle fresh setup conn_queuelen egroup n)

-- What `memset` with 0 makes of a connection.
abbrev pub zero_conn : Conn
zero_conn = record {
  type = conn_client;
  state = conn_free_state;
  attr = record { priority = 0; lport = 0; laddr = 0; rport = 0; raddr = 0; flags = 0 };
  egroup = null;
  peer = null;
  rcv_timeout = 0;
  snd_timeout = 0;
  s_opt = 0;
  timestamp = 0;
  rx_queue = null;
}

-- The memory with a block of `size` bytes at `p` that was cleared and then freed.
unfoldable pub clear_pool : (p : Ptr) → (size : ℕ) → Net → Net
clear_pool p size n =
    let within = λ (c : Ptr). leb p c && ltb c (p + size) in
    record n {
      conn = λ c. if within c then zero_conn else n.conn c;
      links = record {
        mapped = λ c. if within c then false else n.links.mapped c;
        next = λ c. if within c then null else n.links.next c;
        prev = λ c. if within c then null else n.links.prev c;
      };
      freed = p ∷ n.freed;
    }

-- `lsp_conn_init`: the result, `none` where it has no value, and the memory. An LSP_ASSERT that fails,
-- and aborts, is a fault.
unfoldable pub conn_init : (malloc : ℕ → Ptr) → Conf → Net → Run (Option ℤ × Net)
conn_init malloc conf n =
    let size = (conf.conn_max * sizeof_conn) % size_mod in
    let pool = malloc size in
    if not (n.conn_pool == null)
    then fault
    else if pool == null
    then ok (some (negsuc 1), n)
    else ok (none, clear_pool pool size (record n { conn_pool = pool; conn_max = conf.conn_max }))
