-- ===== src/Types.antt =====
-- src/include/lsp_types.h and lsp_defaults.h: error codes, limits and the alignment macros, on LP64
-- (`sizeof(void *)` is 8).
use liblsp.Prelude.{ℕ, ◌+◌, ◌-◌, ◌*◌, ◌/◌, ◌%◌, ◌^◌, ◌==◌, if◌then◌else◌}

-- `LSP_ERR_*`: each fallible function returns one of these.
abbrev pub err_none : ℕ
err_none = 0

abbrev pub err : ℕ
err = 1

abbrev pub err_nomem : ℕ
err_nomem = 2

abbrev pub err_mutex : ℕ
err_mutex = 3

abbrev pub err_timeout : ℕ
err_timeout = 4

abbrev pub err_invalid : ℕ
err_invalid = 5

abbrev pub err_resource_in_use : ℕ
err_resource_in_use = 5

abbrev pub err_queue_full : ℕ
err_queue_full = 10

abbrev pub err_queue_empty : ℕ
err_queue_empty = 11

abbrev pub err_port_in_use : ℕ
err_port_in_use = 20

abbrev pub err_port_invalid : ℕ
err_port_invalid = 21

abbrev pub err_addr_notfound : ℕ
err_addr_notfound = 30

abbrev pub err_addr_invalid : ℕ
err_addr_invalid = 31

abbrev pub err_sock_not_connected : ℕ
err_sock_not_connected = 40

abbrev pub err_sock_opt_invalid : ℕ
err_sock_opt_invalid = 41

abbrev pub err_conn_full : ℕ
err_conn_full = 40

-- `LSP_TIMEOUT_MAX` is `UINT32_MAX`.
abbrev pub timeout_max : ℕ
timeout_max = 2 ^ 32 - 1

abbrev pub default_buffer_header_len : ℕ
default_buffer_header_len = 8

abbrev pub default_addr : ℕ
default_addr = 0xAE55

abbrev pub default_conn_queuelen : ℕ
default_conn_queuelen = 4

abbrev pub default_max_connections : ℕ
default_max_connections = 32

abbrev pub default_queue_timeout_ms : ℕ
default_queue_timeout_ms = 100

abbrev pub default_core_evqueue_len : ℕ
default_core_evqueue_len = 32

-- The wildcards of `lsp_bind` and of a fresh connection.
abbrev pub port_any : ℕ
port_any = 255

abbrev pub addr_any : ℕ
addr_any = 65535

abbrev pub conn_prio_def : ℕ
conn_prio_def = 4

-- `LSP_PACKET_*_BITS` and `LSP_PACKET_*_MAX`: the widths of a packet's fields, and their largest values.
abbrev pub packet_addr_bits : ℕ
packet_addr_bits = 16

abbrev pub packet_plen_bits : ℕ
packet_plen_bits = 10

abbrev pub packet_proto_bits : ℕ
packet_proto_bits = 6

abbrev pub packet_frag_bits : ℕ
packet_frag_bits = 3

abbrev pub packet_seqnum_bits : ℕ
packet_seqnum_bits = 3

abbrev pub packet_port_bits : ℕ
packet_port_bits = 5

abbrev pub packet_addr_max : ℕ
packet_addr_max = 2 ^ packet_addr_bits - 1

abbrev pub packet_plen_max : ℕ
packet_plen_max = 2 ^ packet_plen_bits - 1

abbrev pub packet_proto_max : ℕ
packet_proto_max = 2 ^ packet_proto_bits - 1

abbrev pub packet_frag_max : ℕ
packet_frag_max = 2 ^ packet_frag_bits - 1

abbrev pub packet_seqnum_max : ℕ
packet_seqnum_max = 2 ^ packet_seqnum_bits - 1

abbrev pub packet_port_max : ℕ
packet_port_max = 2 ^ packet_port_bits - 1

-- The arguments that `lsp_socket` takes.
abbrev pub af_lsp : ℕ
af_lsp = 46

abbrev pub sock_stream : ℕ
sock_stream = 1

abbrev pub sock_raw : ℕ
sock_raw = 3

abbrev pub lspproto_lsp : ℕ
lspproto_lsp = 46

abbrev pub sizeof_ptr : ℕ
sizeof_ptr = 8

-- `ALIGNED_SIZE(x)`: x rounded up to a multiple of the pointer size.
unfoldable pub aligned_size : ℕ → ℕ
aligned_size x = (x / sizeof_ptr + (if x % sizeof_ptr == 0 then 0 else 1)) * sizeof_ptr
