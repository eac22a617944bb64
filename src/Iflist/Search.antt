-- ===== src/Iflist/Search.antt =====
-- Which interface a search finds, and when a registered interface is found.
use liblsp.Prelude.{
  ℕ, if◌then◌else◌, ◌≤◌, ◌<◌, ◌≡◌, refl, true, false, some, List, [], ◌∷◌, arith, has, find, length,
  Ptr, null, ok, ◌==◌, ℤ, test_of_eq,
}
use liblsp.Types.{err_none}
use liblsp.LspList.{valid}
use liblsp.LspList.Ring.{IsRing}
use liblsp.LspList.Insert.{add-front}
use liblsp.LspList.Walk.{visited, list_for-find}
use liblsp.Iflist.{
  Interfaces, ifname_size, is_zero, or_null, iflist_add, iface_byname, iface_byaddr,
}

-- What a registration leaves: the same structures, and their list, in the same memory.
abbrev pub Registered : Ptr → Interfaces → List Ptr → Ptr → Type 0
Registered iflist t xs iface =
    (t' : Interfaces) × (iflist_add iflist iface t ≡ some (err_none, t'))
    × IsRing t'.links iflist (iface ∷ xs)
    × (t'.ifname ≡ t.ifname)
    × (t'.dev_addr ≡ t.dev_addr)
    × (t'.links.mapped ≡ t.links.mapped)

module _ (iflist : Ptr) (t : Interfaces) (xs : List Ptr) (r : IsRing t.links iflist xs) where
  -- `lsp_iflist_iface_byaddr` answers the first interface with the address among those that a loop
  -- comes to, or NULL.
  pub byaddr-find :
      (fuel addr : ℕ)
      → length xs ≤ fuel
      → iface_byaddr iflist fuel addr t
        ≡ ok (or_null (find (λ p. addr == t.dev_addr p) (visited xs)))
  unfolding iface_byaddr
  byaddr-find fuel addr h =
      rw (list_for-find t.links iflist (λ p. addr == t.dev_addr p) fuel xs r h)

  -- `lsp_iflist_iface_byname` answers the first interface whose name compares equal among those that a
  -- loop comes to, or NULL, for any `strncasecmp`.
  pub byname-find :
      (strncasecmp : List ℕ → List ℕ → ℕ → ℤ) (fuel : ℕ) (name : List ℕ)
      → length xs ≤ fuel
      → iface_byname iflist strncasecmp fuel name t
        ≡ ok
            (or_null (find (λ p. is_zero (strncasecmp name (t.ifname p) ifname_size)) (visited xs)))
  unfolding iface_byname
  byname-find strncasecmp fuel name h = rw (
      list_for-find t.links iflist (λ p. is_zero (strncasecmp name (t.ifname p) ifname_size)) fuel
        xs r h)

  -- `lsp_iflist_add` succeeds for a mapped structure that is not in the list, puts it in front, and
  -- leaves names and addresses as they are.
  pub iflist_add-Registered :
      (iface : Ptr)
      → valid t.links iface ≡ true
      → has iface (iflist ∷ xs) ≡ false
      → Registered iflist t xs iface
  unfolding iflist_add
  iflist_add-Registered iface v out =
      let (m, e, ring, same) = add-front iface v xs r out in
      (record t { links = m }, rw e, ring, refl, refl, same.0)

-- The interface registered last is found by its address, unless it is the only one: then the answer
-- is NULL.
pub registered_byaddr :
    (iflist : Ptr) (t : Interfaces) (xs : List Ptr) (fuel : ℕ) (iface : Ptr)
    → IsRing t.links iflist (iface ∷ xs)
    → length xs < fuel
    → iface_byaddr iflist fuel (t.dev_addr iface) t ≡ ok (if length xs == 0 then null else iface)
registered_byaddr iflist t xs fuel iface r h =
    rw (byaddr-find iflist t (iface ∷ xs) r fuel (t.dev_addr iface) (omega arith)) (only xs)
  where
    only :
        (ys : List Ptr)
        → ok (or_null (find (λ p. t.dev_addr iface == t.dev_addr p) (visited (iface ∷ ys))))
          ≡ ok (if length ys == 0 then null else iface)
    only [] = refl
    only (y ∷ ys) = rw (test_of_eq (t.dev_addr iface) (t.dev_addr iface) refl) (ground arith)
