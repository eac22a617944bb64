-- ===== src/Interface/Tests.antt =====
-- `lsp_interface_alloc` without memory.
use liblsp.Prelude.{ℕ, ◌-◌, ◌≡◌, refl, true, none, List, [], ◌∷◌, Ptr, null, pos, size_mod}
use liblsp.Types.{err_nomem}
use liblsp.Interface.{interface_alloc}

abbrev no_memory : ℕ → Ptr
no_memory n = null

-- The bytes of "eth", and its end.
abbrev eth : ℕ → List ℕ
eth size = 101 ∷ 116 ∷ 104 ∷ 0 ∷ []

without_memory :
    interface_alloc no_memory 184 no_memory true 0 8 eth (pos 4) 16 ≡ (size_mod - err_nomem, none)
unfolding interface_alloc
without_memory = refl
