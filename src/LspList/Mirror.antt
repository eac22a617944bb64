-- ===== src/LspList/Mirror.antt =====
-- A circular list of lsp_list.h read backwards: the two links of each node change places.
use liblsp.Prelude.{
  ◌≡◌, refl, suc, true, false, List, [], ◌∷◌, ◌++◌, reverse, arith, has, length, Distinct,
  has-append, Ptr,
}
use mathlib.Core.List.{reverse-cons}
use liblsp.LspList.{Links, valid}
use liblsp.LspList.Ring.{IsRing, Follows, Precedes, AllValid}

abbrev pub mirror : Links → Links
mirror m = record m { next = m.prev; prev = m.next }

Follows-snoc :
    (f : Ptr → Ptr) (us : List Ptr) (u end : Ptr)
    → Follows f us u
    → f u ≡ end
    → Follows f (us ++ u ∷ []) end
Follows-snoc f [] u end h e = (e, tt)
Follows-snoc f (v ∷ []) u end h e = (h.0, (e, tt))
Follows-snoc f (v ∷ w ∷ us) u end h e = (h.0, Follows-snoc f (w ∷ us) u end h.1 e)

Precedes-snoc :
    (f : Ptr → Ptr) (start : Ptr) (us : List Ptr) (u end : Ptr)
    → Precedes f start us u
    → f end ≡ u
    → Precedes f start (us ++ u ∷ []) end
Precedes-snoc f start [] u end h e = (h, e)
Precedes-snoc f start (v ∷ us) u end h e = (h.0, Precedes-snoc f v us u end h.1 e)

Follows-reverse :
    (f : Ptr → Ptr) (start : Ptr) (us : List Ptr) (end : Ptr)
    → Precedes f start us end
    → Follows f (end ∷ reverse us) start
Follows-reverse f start [] end h = (h, tt)
Follows-reverse f start (u ∷ us) end h =
    rw (reverse-cons u us)
      (Follows-snoc f (end ∷ reverse us) u start (Follows-reverse f u us end h.1) h.0)

Precedes-reverse :
    (f : Ptr → Ptr) (start : Ptr) (us : List Ptr) (end : Ptr)
    → Follows f (start ∷ us) end
    → Precedes f end (reverse us) start
Precedes-reverse f start [] end h = h.0
Precedes-reverse f start (u ∷ us) end h =
    rw (reverse-cons u us)
      (Precedes-snoc f end (reverse us) u start (Precedes-reverse f u us end h.1) h.0)

AllValid-snoc :
    (m : Links) (us : List Ptr) (u : Ptr)
    → AllValid m us
    → valid m u ≡ true
    → AllValid m (us ++ u ∷ [])
AllValid-snoc m [] u h v = (v, tt)
AllValid-snoc m (w ∷ us) u h v = (h.0, AllValid-snoc m us u h.1 v)

AllValid-reverse : (m : Links) (us : List Ptr) → AllValid m us → AllValid (mirror m) (reverse us)
AllValid-reverse m [] h = tt
AllValid-reverse m (u ∷ us) h =
    rw (reverse-cons u us) (AllValid-snoc (mirror m) (reverse us) u (AllValid-reverse m us h.1) h.0)

pub has-reverse : (x : Ptr) (us : List Ptr) → has x (reverse us) ≡ has x us
has-reverse x [] = refl
has-reverse x (u ∷ us) =
    rw (reverse-cons u us, has-append x (reverse us) (u ∷ []), has-reverse x us) (ground arith)

Distinct-snoc : (us : List Ptr) (u : Ptr) → Distinct us → has u us ≡ false → Distinct (us ++ u ∷ [])
Distinct-snoc [] u d h = (refl, tt)
Distinct-snoc (v ∷ us) u d h =
    (ground (arith, has-append v us (u ∷ [])), Distinct-snoc us u d.1 (ground arith))

Distinct-reverse : (us : List Ptr) → Distinct us → Distinct (reverse us)
Distinct-reverse [] d = tt
Distinct-reverse (u ∷ us) d =
    rw (reverse-cons u us)
      (Distinct-snoc (reverse us) u (Distinct-reverse us d.1) (ground (arith, has-reverse u us)))

length-snoc : (us : List Ptr) (u : Ptr) → length (us ++ u ∷ []) ≡ suc (length us)
length-snoc [] u = refl
length-snoc (v ∷ us) u = rw (length-snoc us u)

pub length-reverse : (us : List Ptr) → length (reverse us) ≡ length us
length-reverse [] = refl
length-reverse (u ∷ us) = rw (reverse-cons u us, length-snoc (reverse us) u, length-reverse us)

-- The mirrored links of a list are those of the reversed list.
pub mirror-IsRing :
    (m : Links) (head : Ptr) (xs : List Ptr)
    → IsRing m head xs
    → IsRing (mirror m) head (reverse xs)
mirror-IsRing m head xs r = record {
  mapped = (r.mapped.0, AllValid-reverse m xs r.mapped.1);
  forth = Follows-reverse m.prev head xs head r.back;
  back = Precedes-reverse m.next head xs head r.forth;
  distinct = (ground (arith, has-reverse head xs), Distinct-reverse xs r.distinct.1);
}
