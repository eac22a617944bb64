-- ===== src/Conf/Replace.antt =====
-- What `lsp_conf_init` does with a configuration.
use liblsp.Prelude.{◌<◌, ◌^◌, ◌≡◌, some, arith}
use liblsp.Types.{err_none}
use liblsp.Conf.{Conf, conf_init}

-- An address that its 16 bits can hold is never refused: the configuration that is given replaces the
-- one in force whole, with the texts that are NULL.
pub conf_init_replaces :
    (conf current : Conf) → conf.addr < 2 ^ 16 → conf_init (some conf) current ≡ (err_none, conf)
unfolding conf_init
conf_init_replaces conf current h = ground arith
