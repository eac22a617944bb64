-- ===== src/Iflist/Sequence/Answers.antt =====
-- Any sequence of registrations and searches against a list of interfaces.
use liblsp.Prelude.{
  ℕ, suc, ◌+◌, ◌≤◌, ◌≡◌, refl, sym, subst, List, [], ◌∷◌, arith, length, Ptr, null, ok, test_of_ne,
  ℤ,
}
use liblsp.LspList.Ring.{IsRing}
use liblsp.Iflist.{Interfaces}
use liblsp.Iflist.Search.{byaddr-find, byname-find}
use liblsp.Iflist.Search.{iflist_add-Registered}
use liblsp.Iflist.Sequence.{
  Call, registers, by_name, by_addr, ask, ask_all, serve, serve_all, IsNew, grown, AllNew,
}

module _ (iflist : Ptr) (strncasecmp : List ℕ → List ℕ → ℕ → ℤ) (fuel : ℕ) where
  -- The same names and addresses, in the same memory.
  abbrev Same : Interfaces → Interfaces → Type 0
  Same t t1 =
      (t1.ifname ≡ t.ifname) × (t1.dev_addr ≡ t.dev_addr) × (t1.links.mapped ≡ t.links.mapped)

  ask-serve :
      (t : Interfaces) (xs : List Ptr) (c : Call)
      → IsRing t.links iflist xs
      → IsNew t.links.mapped iflist c xs
      → length xs ≤ fuel
      → (t1 : Interfaces) × (ask iflist strncasecmp fuel c t
          ≡ ok ((serve strncasecmp t.ifname t.dev_addr c xs).0, t1))
        × IsRing t1.links iflist (grown c xs)
        × Same t t1
  unfolding ask
  ask-serve t xs (registers iface) ring (ne, mapped, out) room =
      let (t1, e, ring1, names, addrs, memory) =
        iflist_add-Registered iflist t xs ring iface (rw (test_of_ne iface null ne, mapped) refl)
          out in
      (t1, rw e refl, ring1, (names, addrs, memory))
  ask-serve t xs (by_name name) ring new room = (
    t,
    rw (byname-find iflist t xs ring strncasecmp fuel name room) refl,
    ring,
    (refl, refl, refl),
  )
  ask-serve t xs (by_addr addr) ring new room =
      (t, rw (byaddr-find iflist t xs ring fuel addr room) refl, ring, (refl, refl, refl))

  length-grown : (c : Call) (xs : List Ptr) → length (grown c xs) ≤ suc (length xs)
  length-grown (registers iface) xs = omega arith
  length-grown (by_name name) xs = omega arith
  length-grown (by_addr addr) xs = omega arith

  serve-grown :
      (names : Ptr → List ℕ) (addrs : Ptr → ℕ) (c : Call) (xs : List Ptr)
      → (serve strncasecmp names addrs c xs).1 ≡ grown c xs
  serve-grown names addrs (registers iface) xs = refl
  serve-grown names addrs (by_name name) xs = refl
  serve-grown names addrs (by_addr addr) xs = refl

  -- Any sequence of `lsp_iflist_add`, `lsp_iflist_iface_byname` and `lsp_iflist_iface_byaddr` ends without a
  -- fault and returns, call by call, what a list of the interfaces answers, the last one in front: a
  -- registration LSP_ERR_NONE; a search the first interface whose name compares equal, or that has the
  -- address, among those that a loop comes to, or NULL. What is registered is a structure that is not
  -- in the list yet; `strncasecmp` is any function.
  pub ask_all-serve_all :
      (t : Interfaces) (xs : List Ptr) (cs : List Call)
      → IsRing t.links iflist xs
      → AllNew t.links.mapped iflist cs xs
      → length xs + length cs ≤ fuel
      → ask_all iflist strncasecmp fuel cs t ≡ ok (serve_all strncasecmp t.ifname t.dev_addr cs xs)
  unfolding ask_all
  ask_all-serve_all t xs [] ring new room = refl
  ask_all-serve_all t xs (c ∷ cs) ring (new, later) room =
      let (t1, e, ring1, (names, addrs, memory)) =
        ask-serve t xs c ring new (omega (arith, room)) in
      let rest =
        ask_all-serve_all t1 (grown c xs) cs ring1
          (subst (λ m. AllNew m iflist cs (grown c xs)) (sym memory) later)
          (omega (arith, room, length-grown c xs)) in
      rw (e, rest, names, addrs, serve-grown t.ifname t.dev_addr c xs) refl
