-- ===== src/Iflist/Sequence.antt =====
-- Users of the registered interfaces: what they call, and what a list of interfaces answers.
pub mod Answers
use liblsp.Prelude.{
  ℕ, suc, ◌+◌, ◌≤◌, ◌≡◌, refl, sym, ap, subst, ◌∙◌, Bool, true, false, Option, none, some, List, [],
  ◌∷◌, arith, has, find, length, Ptr, null, Run, ok, fault, and_then, access, ◌==◌, ◌≢◌, ℤ, is_zero,
}
use liblsp.Types.{err_none}
use liblsp.LspList.{valid}
use liblsp.LspList.Ring.{IsRing}
use liblsp.LspList.Insert.{add-front}
use liblsp.LspList.Walk.{visited}
use liblsp.Iflist.{Interfaces, ifname_size, or_null, iflist_add, iface_byname, iface_byaddr}
use liblsp.Iflist.Search.{byaddr-find, byname-find}

-- A call of a user.
pub data Call : Type 0 where
  registers : Ptr → Call
  by_name : List ℕ → Call
  by_addr : ℕ → Call

pub data Answer : Type 0 where
  code : ℕ → Answer
  found : Ptr → Answer

module _ (iflist : Ptr) (strncasecmp : List ℕ → List ℕ → ℕ → ℤ) (fuel : ℕ) where
  -- The call on the program's list, and a user's calls one after the other.
  unfoldable pub ask : Call → Interfaces → Run (Answer × Interfaces)
  ask (registers iface) t =
      and_then (access (iflist_add iflist iface t)) (λ (rc, t1). ok (code rc, t1))
  ask (by_name name) t =
      and_then (iface_byname iflist strncasecmp fuel name t) (λ p. ok (found p, t))
  ask (by_addr addr) t = and_then (iface_byaddr iflist fuel addr t) (λ p. ok (found p, t))

  unfoldable pub ask_all : List Call → Interfaces → Run (List Answer)
  ask_all [] t = ok []
  ask_all (c ∷ cs) t =
      and_then (ask c t) (λ (a, t1). and_then (ask_all cs t1) (λ rest. ok (a ∷ rest)))

-- The call on a list of interfaces, the last one first. A search goes over those that a loop comes to.
module _ (strncasecmp : List ℕ → List ℕ → ℕ → ℤ) (ifname : Ptr → List ℕ) (dev_addr : Ptr → ℕ) where
  abbrev pub serve : Call → List Ptr → Answer × List Ptr
  serve (registers iface) xs = (code err_none, iface ∷ xs)
  serve (by_name name) xs = (
    found (or_null (find (λ p. is_zero (strncasecmp name (ifname p) ifname_size)) (visited xs))),
    xs,
  )
  serve (by_addr addr) xs = (found (or_null (find (λ p. addr == dev_addr p) (visited xs))), xs)

  abbrev pub serve_all : List Call → List Ptr → List Answer
  serve_all [] xs = []
  serve_all (c ∷ cs) xs = let (a, ys) = serve c xs in a ∷ serve_all cs ys

-- What is registered is a structure, and is neither in the list nor its head.
abbrev pub IsNew : (mapped : Ptr → Bool) → (iflist : Ptr) → Call → List Ptr → Type 0
IsNew mapped iflist (registers iface) xs =
    (iface ≢ null) × (mapped iface ≡ true) × (has iface (iflist ∷ xs) ≡ false)
IsNew mapped iflist c xs = Unit

-- The list after a call.
abbrev pub grown : Call → List Ptr → List Ptr
grown (registers iface) xs = iface ∷ xs
grown c xs = xs

abbrev pub AllNew : (mapped : Ptr → Bool) → (iflist : Ptr) → List Call → List Ptr → Type 0
AllNew mapped iflist [] xs = Unit
AllNew mapped iflist (c ∷ cs) xs = IsNew mapped iflist c xs × AllNew mapped iflist cs (grown c xs)
