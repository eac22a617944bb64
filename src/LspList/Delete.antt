-- ===== src/LspList/Delete.antt =====
-- `lsp_list_del` and `lsp_list_is_empty`.
use liblsp.Prelude.{
  ◌≡◌, refl, ◌==◌, true, false, some, List, ◌∷◌, ◌++◌, arith, has, has-apart, head_or, length, Ptr,
  update, leb,
}
use liblsp.LspList.{Links, valid, del, is_empty}
use liblsp.LspList.Ring.{
  IsRing, IsRing-valid, Leaves, last_or, has-last_or_append, has-head_or_append, Follows-delete,
  Precedes-delete, Distinct-delete, AllValid-delete, AllValid-at, Follows-at, Precedes-at,
  Precedes-end, ends_meet,
}

-- The memory after the neighbours `p` and `q` are linked to each other.
abbrev bridged : Ptr → Ptr → Links → Links
bridged p q m = record m { next = update m.next p q; prev = update m.prev q p }

module _ {m : Links} {head : Ptr} (us : List Ptr) (n : Ptr) (vs : List Ptr)
    (r : IsRing m head (us ++ n ∷ vs)) where
  abbrev before : Ptr
  before = last_or us head

  abbrev behind : Ptr
  behind = head_or vs head

  abbrev left : List Ptr
  left = head ∷ us ++ vs

  -- The node's neighbours stand in what is left of the ring, so they are other nodes.
  in_before : has before left ≡ true
  in_before = has-last_or_append head us vs

  in_behind : has behind left ≡ true
  in_behind = has-head_or_append head us vs

  out : has n left ≡ false
  out = (Distinct-delete (head ∷ us) n vs r.distinct).1

  left_valid : (p : Ptr) → has p left ≡ true → valid m p ≡ true
  left_valid p i = AllValid-at m left p (AllValid-delete m (head ∷ us) n vs r.mapped).0 i

  del-some : del n m ≡ some (bridged before behind m)
  unfolding del
  del-some =
      let apart : (behind == n) ≡ false = ground (arith, has-apart n behind left in_behind out) in
      rw (
        IsRing-valid us n vs r,
        Follows-at m.next us n vs head r.forth.1,
        Precedes-at m.prev head us n vs head r.back,
        left_valid behind in_behind,
        apart,
        IsRing-valid us n vs r,
        Follows-at m.next us n vs head r.forth.1,
        Precedes-at m.prev head us n vs head r.back,
        left_valid before in_before,
      )

  -- `lsp_list_del` takes a node out of its list, and writes to no node outside the list.
  pub del_lem : Leaves m head (us ++ vs) (head ∷ us ++ vs) (del n m)
  del_lem = (
    bridged before behind m,
    del-some,
    record {
      mapped = (AllValid-delete m (head ∷ us) n vs r.mapped).0;
      forth = Follows-delete m.next head us vs n head r.distinct r.forth;
      back = Precedes-delete m.prev head us vs n head r.distinct r.back;
      distinct = (Distinct-delete (head ∷ us) n vs r.distinct).0;
    },
    (
      refl,
      λ a o.
          let not_p : (a == before) ≡ false = has-apart a before left in_before o in
          let not_q : (a == behind) ≡ false = has-apart a behind left in_behind o in
          (ground arith, ground arith),
    ),
  )

-- `lsp_list_is_empty` says true of the empty list and of a list with one node, and false of longer
-- ones.
pub is_empty-leb_one :
    {m : Links} {head : Ptr} (xs : List Ptr)
    → IsRing m head xs
    → is_empty head m ≡ some (leb (length xs) 1)
unfolding is_empty
is_empty-leb_one {m} {head} xs r =
    rw
      (r.mapped.0, r.forth.0, Precedes-end m.prev head xs head r.back, ends_meet head xs r.distinct)
