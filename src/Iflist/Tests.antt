-- ===== src/Iflist/Tests.antt =====
-- The theorems about registered interfaces, on an empty list.
use liblsp.Prelude.{
  ℕ, ◌≡◌, refl, [], ◌∷◌, ok, arith, negsuc, List, pos, ℤ, ◌*◌, ◌==◌, if◌then◌else◌, null,
}
use liblsp.Types.{err_none}
use liblsp.LspList.Sample.{alone_links, alone-IsRing}
use liblsp.Iflist.{Interfaces}
use liblsp.Iflist.Sequence.{Call, registers, by_name, by_addr, code, found, ask_all}
use liblsp.Iflist.Sequence.Answers.{ask_all-serve_all}

-- The name and the address of an interface are from the address of its structure.
abbrev interfaces : Interfaces
interfaces = record { links = alone_links; ifname = λ p. p ∷ []; dev_addr = λ p. p * 10 }

-- A comparison of the first bytes.
abbrev compare_first : List ℕ → List ℕ → ℕ → ℤ
compare_first (x ∷ xs) (y ∷ ys) n = if x == y then pos 0 else negsuc 0
compare_first _ _ n = negsuc 0

-- The first interface is not found while it is the only one.
abbrev calls : List Call
calls = registers 2 ∷ by_addr 20 ∷ registers 3 ∷ by_addr 20 ∷ by_name (3 ∷ []) ∷ by_addr 50 ∷ []

ask_all-serve_all_example :
    ask_all 1 compare_first 6 calls interfaces
    ≡ ok (code err_none ∷ found null ∷ code err_none ∷ found 2 ∷ found 3 ∷ found null ∷ [])
ask_all-serve_all_example =
    ask_all-serve_all 1 compare_first 6 interfaces [] calls alone-IsRing
      (
        (λ e. omega (arith, e), refl, refl),
        (tt, ((λ e. omega (arith, e), refl, refl), (tt, (tt, (tt, tt))))),
      )
      (omega arith)
