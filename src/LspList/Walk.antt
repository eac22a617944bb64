-- ===== src/LspList/Walk.antt =====
-- `lsp_list_for`: which nodes a loop over a list comes to.
use liblsp.Prelude.{
  ℕ, zero, suc, ◌≤◌, ◌<◌, ◌≡◌, refl, ◌==◌, Bool, true, false, Option, none, some, List, [], ◌∷◌,
  arith, has, find, length, Ptr, ok, head_or, leb, if◌then◌else◌, test_of_eq,
}
use liblsp.LspList.{Links, valid, first, after, for_loop, list_for}
use liblsp.LspList.Ring.{IsRing, Follows, AllValid, Precedes-end, ends_meet, last_or}

-- What `lsp_list_for` comes to in a list of the nodes `xs`: a single node is passed over.
abbrev pub visited {ℓ} : {A : Type ℓ} → List A → List A
visited [] = []
visited (x ∷ []) = []
visited (x ∷ y ∷ l) = x ∷ y ∷ l

abbrev pub first_of : List Ptr → Option Ptr
first_of [] = none
first_of (x ∷ xs) = some x

pub after-cons :
    (m : Links) (head p u : Ptr)
    → valid m p ≡ true
    → m.next p ≡ u
    → (u == head) ≡ false
    → after head p m ≡ some (some u)
unfolding after
after-cons m head p u v e ne = rw (v, e, ne)

pub after-nil :
    (m : Links) (head p : Ptr) → valid m p ≡ true → m.next p ≡ head → after head p m ≡ some none
unfolding after
after-nil m head p v e = rw (v, e, test_of_eq head head refl)

module _ (m : Links) (head : Ptr) (test : Ptr → Bool) where
  for_loop-find :
      (fuel : ℕ) (p : Ptr) (us : List Ptr)
      → length us < fuel
      → AllValid m (p ∷ us)
      → Follows m.next (p ∷ us) head
      → has head us ≡ false
      → for_loop test head m fuel (some p) ≡ ok (find test (p ∷ us))
  unfolding for_loop
  for_loop-find zero p us h v f out = absurd (omega arith)
  for_loop-find (suc fuel) p [] h v f out = ground (arith, after-nil m head p v.0 f.0)
  for_loop-find (suc fuel) p (u ∷ us) h v f out = ground (
    arith,
    after-cons m head p u v.0 f.0 (ground arith),
    for_loop-find fuel u us (omega arith) v.1 f.1 (ground arith),
  )

  pub first-visited :
      (xs : List Ptr) → IsRing m head xs → first head m ≡ some (first_of (visited xs))
  unfolding first
  first-visited xs r =
      rw (r.mapped.0, r.forth.0, Precedes-end m.prev head xs head r.back)
        (first_visited_of xs (ends_meet head xs r.distinct))
    where
      first_visited_of :
          (ys : List Ptr)
          → (head_or ys head == last_or ys head) ≡ leb (length ys) 1
          → (if head_or ys head == last_or ys head
              then some none
              else some (some (head_or ys head)))
            ≡ some (first_of (visited ys))
      first_visited_of [] e = rw e
      first_visited_of (x ∷ []) e = rw e
      first_visited_of (x ∷ y ∷ l) e = ground arith

  -- With fuel for its nodes, a loop over a list comes to them in order and ends at the first that passes
  -- the test, without a fault; but a list of one node is passed over as if it were empty.
  pub list_for-find :
      (fuel : ℕ) (xs : List Ptr)
      → IsRing m head xs
      → length xs ≤ fuel
      → list_for fuel test head m ≡ ok (find test (visited xs))
  unfolding list_for for_loop
  list_for-find fuel [] r h = rw (first-visited [] r, list_for)
  list_for-find fuel (x ∷ []) r h = rw (first-visited (x ∷ []) r, list_for)
  list_for-find fuel (x ∷ y ∷ l) r h =
      rw (first-visited (x ∷ y ∷ l) r, list_for)
        (for_loop-find fuel x (y ∷ l) (omega arith) r.mapped.1 r.forth.1 (ground arith))
