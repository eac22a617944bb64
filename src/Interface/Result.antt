-- ===== src/Interface/Result.antt =====
-- src/lsp_interface.c: what `lsp_interface_alloc` gives its caller.
use liblsp.Prelude.{
  ℕ, ◌-◌, ◌≡◌, ◌≢◌, ◌⊎◌, refl, inl, inr, Bool, Bool-cases, Option, none, some, List, ◌==◌, arith,
  Ptr, null, ℤ, size_mod, add_size, to_size,
}
use liblsp.Types.{err_nomem}
use liblsp.Iflist.{ifname_size}
use liblsp.Queue.{Queue, create}
use liblsp.Interface.{
  Interface, interface_alloc, interface_getdata, sizeof_interface, nomem_rc, named,
}

-- The two ends of an allocation at `iface` with the name `name`: 2^64 - LSP_ERR_NOMEM and nothing allocated,
-- or the interface, with no private data.
abbrev pub Ends : Ptr → List ℕ → Ptr × Option Interface → Type 0
Ends iface name result =
    ((result.0 ≡ size_mod - err_nomem) × (result.1 ≡ none))
    ⊎ ((i : Interface) × (result ≡ (iface, some i))
        × (i.ifname ≡ name)
        × (interface_getdata i ≡ null))

-- `lsp_interface_alloc` never returns NULL. Where memory, or a queue, is lacking, it returns the code
-- -LSP_ERR_NOMEM as a pointer and leaves nothing allocated; otherwise it returns the block from calloc, of which
-- `lsp_interface_getdata` gives NULL whatever the length of the private data.
pub interface_alloc_never_null :
    (calloc : ℕ → Ptr) (sizeof_handle : ℕ) (malloc : ℕ → Ptr) (setup : Bool) (blank : Ptr)
    (itemsize : ℕ) (vsnprintf : ℕ → List ℕ) (tx_queuelen : ℤ) (priv_len : ℕ)
    → ((interface_alloc calloc sizeof_handle malloc setup blank itemsize vsnprintf tx_queuelen
          priv_len).0
        ≢ null)
      × Ends (calloc (add_size sizeof_interface priv_len)) (vsnprintf ifname_size) (
          interface_alloc calloc sizeof_handle malloc setup blank itemsize vsnprintf tx_queuelen
            priv_len)
unfolding interface_alloc interface_getdata
interface_alloc_never_null calloc sizeof_handle malloc setup blank itemsize vsnprintf tx_queuelen
      priv_len =
    let iface = calloc (add_size sizeof_interface priv_len) in
    elim (Bool-cases (iface == null)) [
      | inl lacking ↦ rw lacking (omega arith, inl (refl, refl))
      | inr got ↦ rw got (
          with_queue iface (ground arith)
            (create sizeof_handle malloc setup blank tx_queuelen itemsize))
    ]
  where
    with_queue :
        (iface : Ptr)
        → iface ≢ null
        → (made : Option (Queue Ptr))
        → ((elim made as (λ x. Ptr × Option Interface) [
          | none ↦ (to_size nomem_rc, none)
          | some q ↦ (iface, some (named q (vsnprintf ifname_size)))
        ]).0
            ≢ null)
          × Ends iface (vsnprintf ifname_size) (elim made as (λ x. Ptr × Option Interface) [
            | none ↦ (to_size nomem_rc, none)
            | some q ↦ (iface, some (named q (vsnprintf ifname_size)))
          ])
    with_queue iface ne none = (omega arith, inl (refl, refl))
    with_queue iface ne (some q) = (ne, inr (named q (vsnprintf ifname_size), refl, refl, refl))
