-- ===== src/Conf.antt =====
-- src/lsp_conf.c: the configuration in force.
pub mod Replace
use liblsp.Prelude.{ℕ, Option, none, some, ltb, if◌then◌else◌, Ptr}
use liblsp.Types.{
  err_none, err_addr_invalid, packet_addr_max, default_addr, default_max_connections,
  default_conn_queuelen,
}

-- `struct lsp_conf_s`. A text is a pointer.
pub record Conf : Type 0 where
  pub addr : ℕ
  pub hostname : Ptr
  pub machinename : Ptr
  pub rev : Ptr
  pub conn_max : ℕ
  pub conn_queuelen : ℕ

-- `_lsp_conf` at the start, with the texts LSP_DEFAULT_HOSTNAME, LSP_DEFAULT_MACHINENAME and LSP_DEFAULT_LSPREV
-- at these addresses.
abbrev pub def_conf : (hostname machinename rev : Ptr) → Conf
def_conf hostname machinename rev = record {
  addr = default_addr;
  hostname = hostname;
  machinename = machinename;
  rev = rev;
  conn_max = default_max_connections;
  conn_queuelen = default_conn_queuelen;
}

-- `lsp_conf_init`: the result, and what `_lsp_conf` becomes.
unfoldable pub conf_init : Option Conf → Conf → ℕ × Conf
conf_init none current = (err_none, current)
conf_init (some conf) current =
    if ltb packet_addr_max conf.addr then (err_addr_invalid, current) else (
      err_none,
      record {
        addr = conf.addr;
        hostname = conf.hostname;
        machinename = conf.machinename;
        rev = conf.rev;
        conn_max = conf.conn_max;
        conn_queuelen = conf.conn_queuelen;
      },
    )
