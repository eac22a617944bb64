-- ===== src/LspList/Mapping.antt =====
-- The nodes of a list when a new block is mapped, and what stands beside them in memory.
use liblsp.Prelude.{◌≡◌, refl, false, List, [], ◌∷◌, map, arith, has, Ptr, update}
use liblsp.LspList.{Links, mapping}
use liblsp.LspList.Ring.{IsRing, AllValid}

AllValid-mapping : (m : Links) (p : Ptr) (xs : List Ptr) → AllValid m xs → AllValid (mapping p m) xs
AllValid-mapping m p [] h = tt
AllValid-mapping m p (x ∷ xs) h = (ground arith, AllValid-mapping m p xs h.1)

pub IsRing-mapping :
    {m : Links} {head : Ptr} (p : Ptr) (xs : List Ptr)
    → IsRing m head xs
    → IsRing (mapping p m) head xs
IsRing-mapping {m} {head} p xs r = record {
  mapped = AllValid-mapping m p (head ∷ xs) r.mapped;
  forth = r.forth;
  back = r.back;
  distinct = r.distinct;
}

-- A store to a node outside the list changes nothing at the list's nodes.
pub map-update {ℓ} :
    {A : Type ℓ} (f : Ptr → A) (p : Ptr) (a : A) (xs : List Ptr)
    → has p xs ≡ false
    → map (update f p a) xs ≡ map f xs
map-update f p a [] h = refl
map-update f p a (x ∷ xs) h = ground (arith, map-update f p a xs)
