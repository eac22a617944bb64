-- ===== src/Interface.antt =====
-- src/lsp_interface.c: the allocation of a network interface. `lsp_interface_register` and
-- `lsp_interface_qwrite` have empty bodies.
pub mod Result
mod Tests
use liblsp.Prelude.{
  ℕ, Bool, Option, none, some, List, ◌==◌, if◌then◌else◌, Ptr, null, ℤ, pos, negsuc, to_size,
  add_size,
}
use liblsp.Iflist.{ifname_size}
use liblsp.Queue.{Queue, create}

-- `lsp_interface_stats_t`
pub record InterfaceStats : Type 0 where
  pub tx_count : ℕ
  pub rx_count : ℕ
  pub tx_bytes : ℕ
  pub rx_bytes : ℕ
  pub dropped : ℕ
  pub tx_error : ℕ
  pub rx_error : ℕ

-- `struct lsp_interface_s`, without its list node; `tx_queue` is the queue behind the handle.
pub record Interface : Type 0 where
  pub index : ℤ
  pub ifname : List ℕ
  pub dev_addr : ℕ
  pub flags : ℤ
  pub mtu : ℕ
  pub ops : Ptr
  pub stats : InterfaceStats
  pub min_header_len : ℤ
  pub tx_queue : Queue Ptr
  pub interface_data : Ptr

-- `sizeof(lsp_interface_t)` on LP64.
abbrev pub sizeof_interface : ℕ
sizeof_interface = 120

abbrev pub no_stats : InterfaceStats
no_stats = record {
  tx_count = 0;
  rx_count = 0;
  tx_bytes = 0;
  rx_bytes = 0;
  dropped = 0;
  tx_error = 0;
  rx_error = 0;
}

-- A block from `lsp_calloc` after the assignments to `tx_queue` and `ifname`.
abbrev pub named : Queue Ptr → List ℕ → Interface
named q name = record {
  index = pos 0;
  ifname = name;
  dev_addr = 0;
  flags = pos 0;
  mtu = 0;
  ops = null;
  stats = no_stats;
  min_header_len = pos 0;
  tx_queue = q;
  interface_data = null;
}

-- `rc`, which is -LSP_ERR_NOMEM until a name is written.
abbrev pub nomem_rc : ℤ
nomem_rc = negsuc 1

-- `lsp_interface_alloc`: the pointer returned, and the interface there, if one is left allocated. An
-- `int` returned as a pointer is extended by its sign. The call of `lsp_queue_create` lacks its second
-- argument: `itemsize` is what stands in its place. `vsnprintf` is what the call of that size writes.
unfoldable pub interface_alloc :
    (calloc : ℕ → Ptr)
    → (sizeof_handle : ℕ) → (malloc : ℕ → Ptr) → (setup : Bool) → (blank : Ptr) → (itemsize : ℕ)
    → (vsnprintf : ℕ → List ℕ) → (tx_queuelen : ℤ) → (priv_len : ℕ) → Ptr × Option Interface
interface_alloc calloc sizeof_handle malloc setup blank itemsize vsnprintf tx_queuelen priv_len =
    let iface = calloc (add_size sizeof_interface priv_len) in
    if iface == null
    then (to_size nomem_rc, none)
    else elim (create sizeof_handle malloc setup blank tx_queuelen itemsize) [
      | none ↦ (to_size nomem_rc, none)
      | some q ↦ (iface, some (named q (vsnprintf ifname_size)))
    ]

-- `lsp_interface_getdata`
unfoldable pub interface_getdata : Interface → Ptr
interface_getdata iface = iface.interface_data
