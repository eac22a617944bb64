-- ===== src/LspList/Tests.antt =====
-- Runs of the list functions, and the theorems about them, on small lists.
use liblsp.Prelude.{◌≡◌, refl, some, none, [], ◌∷◌, ◌==◌, ok, arith, ltb}
use liblsp.LspList.{add, del, list_for, first, for_loop, after}
use liblsp.LspList.Ring.{Leaves}
use liblsp.LspList.Sample.{pair_links, pair_nodes, single_links, pair-IsRing}
use liblsp.LspList.Insert.{add-front}
use liblsp.LspList.Delete.{del_lem}
use liblsp.LspList.Walk.{list_for-find}
use liblsp.LspList.Back.{list_for_back, list_for_back-find}

-- A loop comes to both nodes of the pair, and to no node of the single one.
pair_walk : list_for 5 (λ p. p == 3) 1 pair_links ≡ ok (some 3)
unfolding list_for first for_loop after
pair_walk = refl

single_walk : list_for 5 (λ p. p == 2) 1 single_links ≡ ok none
unfolding list_for first for_loop after
single_walk = refl

-- A node whose links are NULL cannot be deleted.
del_unlinked : del 5 (record pair_links { next = λ p. 0; prev = λ p. 0 }) ≡ none
unfolding del
del_unlinked = refl

list_for-find_example : list_for 5 (λ p. p == 3) 1 pair_links ≡ ok (some 3)
list_for-find_example =
    list_for-find pair_links 1 (λ p. p == 3) 5 pair_nodes pair-IsRing (omega arith)

add-front_example : Leaves pair_links 1 (4 ∷ pair_nodes) (4 ∷ 1 ∷ pair_nodes) (add 4 1 pair_links)
add-front_example = add-front {m = pair_links} {head = 1} 4 refl pair_nodes pair-IsRing refl

del_lem_example : Leaves pair_links 1 (3 ∷ []) (1 ∷ 3 ∷ []) (del 2 pair_links)
del_lem_example = del_lem {m = pair_links} {head = 1} [] 2 (3 ∷ []) pair-IsRing

list_for_back-find_example : list_for_back 5 (λ p. ltb p 4) 1 pair_links ≡ ok (some 3)
list_for_back-find_example =
    list_for_back-find pair_links 1 (λ p. ltb p 4) 5 pair_nodes pair-IsRing (omega arith)
