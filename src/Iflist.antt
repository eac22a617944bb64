-- ===== src/Iflist.antt =====
-- src/lsp_iflist.c: the registered interfaces, a circular list of the caller's structures.
pub mod Search
pub mod Sequence
mod Tests
use liblsp.Prelude.{
  ℕ, Bool, true, false, Option, none, some, List, ◌==◌, if◌then◌else◌, Ptr, null, Run, ok, and_then,
  ℤ, is_zero, ◌>>=◌,
}
use liblsp.Types.{err_none}
use liblsp.LspList.{Links, add, list_for}

-- What is read of a `struct lsp_interface_s`: its name as the bytes of a C string, and its address.
pub record Interfaces : Type 0 where
  pub links : Links
  pub ifname : Ptr → List ℕ
  pub dev_addr : Ptr → ℕ

-- `sizeof(iface->ifname)`
abbrev pub ifname_size : ℕ
ifname_size = 32

abbrev pub or_null : Option Ptr → Ptr
or_null none = null
or_null (some p) = p

module _ (iflist : Ptr) where
  -- `lsp_iflist_add`; `none` is an access to no structure.
  unfoldable pub iflist_add : Ptr → Interfaces → Option (ℕ × Interfaces)
  iflist_add iface t = do m ← add iface iflist t.links; some (err_none, record t { links = m })

  -- `strncasecmp` is the C library's: 0 where at most so many bytes agree but for case.
  unfoldable pub iface_byname :
      (strncasecmp : List ℕ → List ℕ → ℕ → ℤ) → (fuel : ℕ) → List ℕ → Interfaces → Run Ptr
  iface_byname strncasecmp fuel name t =
      and_then
        (list_for fuel (λ p. is_zero (strncasecmp name (t.ifname p) ifname_size)) iflist t.links)
        (λ c. ok (or_null c))

  unfoldable pub iface_byaddr : (fuel : ℕ) → ℕ → Interfaces → Run Ptr
  iface_byaddr fuel addr t =
      and_then (list_for fuel (λ p. addr == t.dev_addr p) iflist t.links) (λ c. ok (or_null c))
