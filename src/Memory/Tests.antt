-- ===== src/Memory/Tests.antt =====
-- The theorems about the accounting, on a list of two blocks.
use liblsp.Prelude.{ℕ, ◌*◌, ◌≡◌, refl, some, [], ◌∷◌, List, map, arith, Ptr, ok}
use liblsp.LspList.Sample.{pair_links, pair_nodes, pair-IsRing}
use liblsp.Memory.{Blocks, free}
use liblsp.Memory.Record.{
  Call, malloc_call, calloc_call, block_of, entry, latest, AllFresh, Records, perform_all,
  perform_all-Records,
}
use liblsp.Memory.Free.{Freed, free-Freed}

-- Block 2 stands for the memory at 20, block 3 for that at 30.
abbrev two_blocks : Blocks
two_blocks = record { links = pair_links; size = λ b. 16; ptr = λ b. b * 10; alloc_bytes = 32 }

free-Freed_example : Freed (some 3) two_blocks (free 1 30 2 two_blocks)
free-Freed_example = free-Freed 1 30 two_blocks 2 pair_nodes pair-IsRing (omega arith)

abbrev two_entries : List (Ptr × ℕ)
two_entries = (20, 16) ∷ (30, 16) ∷ []

two_blocks-Records : Records 1 two_blocks pair_nodes two_entries
two_blocks-Records = record { ring = pair-IsRing; pointers = refl; sizes = refl; bytes = refl }

abbrev two_calls : List Call
two_calls = malloc_call 7 70 100 ∷ calloc_call 8 80 4 25 ∷ []

two_calls-AllFresh : AllFresh 1 two_calls pair_nodes
unfolding AllFresh
two_calls-AllFresh = (omega arith, refl, (omega arith, refl, tt))

perform_all-Records_example :
    (h : Blocks) × (perform_all 1 two_calls two_blocks
      ≡ ok (map (λ call. (entry call).0) two_calls, h))
    × Records 1 h (latest block_of two_calls pair_nodes) (latest entry two_calls two_entries)
perform_all-Records_example = perform_all-Records 1 two_calls two_blocks-Records two_calls-AllFresh
