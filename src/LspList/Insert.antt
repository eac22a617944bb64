-- ===== src/LspList/Insert.antt =====
-- Insertion into a circular list: `_lsp_list_add` and the four functions that call it.
use liblsp.Prelude.{
  ◌≡◌, refl, subst, sym, ◌==◌, true, false, some, List, [], ◌∷◌, ◌++◌, append_assoc, append-nil,
  arith, has, has-apart, head_or, Ptr, update,
}
use liblsp.LspList.{
  Links, valid, head_init, add_between, add, add_tail, insert_after, insert_before,
}
use liblsp.LspList.Ring.{
  IsRing, IsRing-valid, Leaves, SameOutside, last_or, has-last_or_append, has-head_or_append,
  last_or-append, Follows-insert, Precedes-insert, Distinct-insert, AllValid-insert, AllValid-at,
  Follows-at, Precedes-at, Precedes-end,
}

-- The memory after `n` is linked in between `p` and `q`.
abbrev pub spliced : Ptr → Ptr → Ptr → Links → Links
spliced n p q m = record m {
  next = update (update m.next n q) p n;
  prev = update (update m.prev q n) n p;
}

add_between-some :
    (n p q : Ptr) (m : Links)
    → valid m n ≡ true
    → valid m p ≡ true
    → valid m q ≡ true
    → add_between n p q m ≡ some (spliced n p q m)
unfolding add_between
add_between-some n p q m vn vp vq = rw (vq, vn, vn, vp)

-- Between `us` and `vs` of a ring, a mapped node `n` that is not in the ring comes in.
IsRing-spliced :
    {m : Links} {head : Ptr} (us vs : List Ptr) (n : Ptr)
    → IsRing m head (us ++ vs)
    → valid m n ≡ true
    → has n (head ∷ us ++ vs) ≡ false
    → IsRing (spliced n (last_or us head) (head_or vs head) m) head (us ++ n ∷ vs)
IsRing-spliced {m} {head} us vs n r v out = record {
  mapped = AllValid-insert m (head ∷ us) n vs r.mapped v;
  forth = Follows-insert m.next head us vs n head r.distinct out r.forth;
  back = Precedes-insert m.prev head us vs n head r.distinct out r.back;
  distinct = Distinct-insert (head ∷ us) n vs r.distinct out;
}

-- The writes to `n`, `p` and `q` leave other nodes alone.
spliced-SameOutside :
    (n p q : Ptr) (ps : List Ptr) (m : Links)
    → has p ps ≡ true
    → has q ps ≡ true
    → SameOutside (n ∷ ps) m (spliced n p q m)
spliced-SameOutside n p q ps m in_p in_q = (
  refl,
  λ a o.
      let not_p : (a == p) ≡ false = has-apart a p ps in_p (ground arith) in
      let not_q : (a == q) ≡ false = has-apart a q ps in_q (ground arith) in
      (ground arith, ground arith),
)

module _ {m : Links} {head : Ptr} (n : Ptr) (v : valid m n ≡ true) where
  -- `_lsp_list_add` between the neighbours of a gap in the ring.
  add_between-Leaves :
      (us vs : List Ptr)
      → IsRing m head (us ++ vs)
      → has n (head ∷ us ++ vs) ≡ false
      → Leaves m head
          (us ++ n ∷ vs)
          (n ∷ head ∷ us ++ vs)
          (add_between n (last_or us head) (head_or vs head) m)
  add_between-Leaves us vs r out =
      let in_p = has-last_or_append head us vs in
      let in_q = has-head_or_append head us vs in
      (
        spliced n (last_or us head) (head_or vs head) m,
        add_between-some n _ _ m v (AllValid-at m (head ∷ us ++ vs) _ r.mapped in_p)
            (AllValid-at m (head ∷ us ++ vs) _ r.mapped in_q),
        IsRing-spliced us vs n r v out,
        spliced-SameOutside n _ _ (head ∷ us ++ vs) m in_p in_q,
      )

  -- The same, with the ring and its neighbours under other names.
  add_between-Leaves_of :
      (us vs xs ys : List Ptr) (p : Ptr)
      → us ++ vs ≡ xs
      → us ++ n ∷ vs ≡ ys
      → last_or us head ≡ p
      → IsRing m head xs
      → has n (head ∷ xs) ≡ false
      → Leaves m head ys (n ∷ head ∷ xs) (add_between n p (head_or vs head) m)
  add_between-Leaves_of us vs xs ys p ex ey ep r out =
      rw (← ex, ← ey, ← ep)
        (add_between-Leaves us vs (subst (IsRing m head) (sym ex) r) (rw ex out))

  -- `lsp_list_add` puts a mapped node that is not in the list in front, and writes to no node
  -- outside the list.
  pub add-front :
      (xs : List Ptr)
      → IsRing m head xs
      → has n (head ∷ xs) ≡ false
      → Leaves m head (n ∷ xs) (n ∷ head ∷ xs) (add n head m)
  unfolding add
  add-front xs r out = rw (r.mapped.0, r.forth.0) (add_between-Leaves [] xs r out)

  -- `lsp_list_add_tail` puts a mapped node that is not in the list at the back, and writes to no
  -- node outside the list.
  pub add_tail-back :
      (xs : List Ptr)
      → IsRing m head xs
      → has n (head ∷ xs) ≡ false
      → Leaves m head (xs ++ n ∷ []) (n ∷ head ∷ xs) (add_tail n head m)
  unfolding add_tail
  add_tail-back xs r out =
      rw (r.mapped.0, Precedes-end m.prev head xs head r.back)
        (add_between-Leaves_of xs [] xs _ _ (append-nil xs) refl refl r out)

  -- `lsp_list_insert_before` puts a mapped node that is not in the list before a node of the list,
  -- and writes to no node outside the list.
  pub insert_before_lem :
      (us : List Ptr) (node : Ptr) (vs : List Ptr)
      → IsRing m head (us ++ node ∷ vs)
      → has n (head ∷ us ++ node ∷ vs) ≡ false
      → Leaves m head (us ++ n ∷ node ∷ vs) (n ∷ head ∷ us ++ node ∷ vs) (insert_before n node m)
  unfolding insert_before
  insert_before_lem us node vs r out =
      rw (IsRing-valid us node vs r, Precedes-at m.prev head us node vs head r.back)
        (add_between-Leaves us (node ∷ vs) r out)

  -- `lsp_list_insert_after` puts a mapped node that is not in the list behind a node of the list,
  -- and writes to no node outside the list.
  pub insert_after_lem :
      (us : List Ptr) (node : Ptr) (vs : List Ptr)
      → IsRing m head (us ++ node ∷ vs)
      → has n (head ∷ us ++ node ∷ vs) ≡ false
      → Leaves m head (us ++ node ∷ n ∷ vs) (n ∷ head ∷ us ++ node ∷ vs) (insert_after n node m)
  unfolding insert_after
  insert_after_lem us node vs r out =
      rw (IsRing-valid us node vs r, Follows-at m.next us node vs head r.forth.1)
        (add_between-Leaves_of (us ++ node ∷ []) vs _ _ node (append_assoc us (node ∷ []) vs)
          (append_assoc us (node ∷ []) (n ∷ vs)) (last_or-append head us node) r out)

-- `lsp_list_head_init` makes an empty list of any mapped node.
pub head_init-empty :
    {m : Links} (head : Ptr) → valid m head ≡ true → Leaves m head [] (head ∷ []) (head_init head m)
unfolding head_init
head_init-empty {m} head v = (
  record m { next = update m.next head head; prev = update m.prev head head },
  rw (v, v),
  record { mapped = (v, tt); forth = ground arith; back = ground arith; distinct = (refl, tt) },
  (refl, λ p o. ground arith),
)
