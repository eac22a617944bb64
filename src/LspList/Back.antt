-- ===== src/LspList/Back.antt =====
-- `lsp_list_for_back`: the loop over a list from its last node.
use liblsp.Prelude.{
  ℕ, zero, suc, ◌≤◌, ◌≡◌, refl, ◌==◌, Bool, true, false, Option, none, some, List, reverse, arith,
  find, length, Ptr, Run, ok, fault, out_of_fuel, if◌then◌else◌, ◌>>=◌,
}
use liblsp.LspList.{Links, valid, next_of, prev_of, first, after, for_loop, list_for}
use liblsp.LspList.Mirror.{mirror, mirror-IsRing, length-reverse}
use liblsp.LspList.Ring.{IsRing}
use liblsp.LspList.Walk.{visited, list_for-find}

-- The first value of the cursor, and the one after `ptr`; `some none` is NULL.
unfoldable pub first_back : Ptr → Links → Option (Option Ptr)
first_back head m = do
  next ← next_of m head
  prev ← prev_of m head
  if next == prev then some none else some (some prev)

unfoldable pub after_back : Ptr → Ptr → Links → Option (Option Ptr)
after_back head ptr m = do prev ← prev_of m ptr; some (if prev == head then none else some prev)

-- The loop with a body that breaks at the first node which passes `test`.
unfoldable pub for_back_loop : (Ptr → Bool) → Ptr → Links → ℕ → Option Ptr → Run (Option Ptr)
for_back_loop test head m fuel none = ok none
for_back_loop test head m zero (some ptr) = out_of_fuel
for_back_loop test head m (suc fuel) (some ptr) = elim (test ptr) [
  | true ↦ ok (some ptr)
  | false ↦ elim (after_back head ptr m) [
    | none ↦ fault
    | some c ↦ for_back_loop test head m fuel c
  ]
]

unfoldable pub list_for_back : ℕ → (Ptr → Bool) → Ptr → Links → Run (Option Ptr)
list_for_back fuel test head m = elim (first_back head m) [
  | none ↦ fault
  | some c ↦ for_back_loop test head m fuel c
]

first_back-mirror : (m : Links) (head : Ptr) → first_back head m ≡ first head (mirror m)
unfolding first_back first
first_back-mirror m head = by_validity (valid m head)
  where
    by_validity :
        (v : Bool)
        → (do
          next ← if v then some (m.next head) else none
          prev ← if v then some (m.prev head) else none
          if next == prev then some none else some (some prev))
          ≡ (do
            next ← if v then some (m.prev head) else none
            prev ← if v then some (m.next head) else none
            if next == prev then some none else some (some next))
    by_validity true = ground arith
    by_validity false = refl

after_back-mirror : (m : Links) (head ptr : Ptr) → after_back head ptr m ≡ after head ptr (mirror m)
unfolding after_back after
after_back-mirror m head ptr = refl

for_back_loop-mirror :
    (m : Links) (head : Ptr) (test : Ptr → Bool) (fuel : ℕ) (c : Option Ptr)
    → for_back_loop test head m fuel c ≡ for_loop test head (mirror m) fuel c
unfolding for_back_loop for_loop after after_back
for_back_loop-mirror m head test fuel none = refl
for_back_loop-mirror m head test zero (some ptr) = refl
for_back_loop-mirror m head test (suc fuel) (some ptr) =
    agree (for_back_loop-mirror m head test fuel) (test ptr) (after head ptr (mirror m))
  where
    agree :
        ((c : Option Ptr) → for_back_loop test head m fuel c ≡ for_loop test head (mirror m) fuel c)
        → (passed : Bool) (cursor : Option (Option Ptr))
        → elim passed as (λ x. Run (Option Ptr)) [
          | true ↦ ok (some ptr)
          | false ↦ elim cursor as (λ x. Run (Option Ptr)) [
            | none ↦ fault
            | some c ↦ for_back_loop test head m fuel c
          ]
        ]
          ≡ elim passed as (λ x. Run (Option Ptr)) [
            | true ↦ ok (some ptr)
            | false ↦ elim cursor as (λ x. Run (Option Ptr)) [
              | none ↦ fault
              | some c ↦ for_loop test head (mirror m) fuel c
            ]
          ]
    agree same true c = refl
    agree same false none = refl
    agree same false (some c) = same c

list_for_back-mirror :
    (m : Links) (head : Ptr) (test : Ptr → Bool) (fuel : ℕ)
    → list_for_back fuel test head m ≡ list_for fuel test head (mirror m)
unfolding list_for_back list_for
list_for_back-mirror m head test fuel =
    rw (list_for_back, first_back-mirror m head) (agree (first head (mirror m)))
  where
    agree :
        (cursor : Option (Option Ptr))
        → elim cursor as (λ x. Run (Option Ptr)) [
          | none ↦ fault
          | some c ↦ for_back_loop test head m fuel c
        ]
          ≡ elim cursor as (λ x. Run (Option Ptr)) [
            | none ↦ fault
            | some c ↦ for_loop test head (mirror m) fuel c
          ]
    agree none = refl
    agree (some c) = for_back_loop-mirror m head test fuel c

-- With fuel for its nodes, the loop that starts at the back comes to the nodes of a list in reverse order
-- and ends at the first that passes the test, without a fault; it passes over a list of one node.
pub list_for_back-find :
    (m : Links) (head : Ptr) (test : Ptr → Bool) (fuel : ℕ) (xs : List Ptr)
    → IsRing m head xs
    → length xs ≤ fuel
    → list_for_back fuel test head m ≡ ok (find test (visited (reverse xs)))
list_for_back-find m head test fuel xs r h = rw (list_for_back-mirror m head test fuel) (
    list_for-find (mirror m) head test fuel (reverse xs) (mirror-IsRing m head xs r)
      (rw (length-reverse xs) h))
