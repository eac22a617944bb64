-- ===== src/Routing/Lookup.antt =====
-- What `lsp_route_find` answers after `lsp_route_add`.
use liblsp.Prelude.{
  ℕ, suc, ◌≤◌, ◌<◌, ◌≡◌, refl, ◌∙◌, ap, ◌≢◌, false, List, [], map, arith, has, find, length, Ptr,
  null, ok, and_then, ℤ, to_u32, ◌∷◌,
}
use liblsp.LspList.Ring.{IsRing}
use liblsp.LspList.Walk.{visited}
use liblsp.Routing.{Route, Routes, fill, route_add, route_find}
use liblsp.Routing.Table.{
  leads_to, table_find, table_add, chosen, length-table_add, table_find-add, table_find-add_ne,
  table_find_single,
}
use liblsp.Routing.Refine.{at, route_find-table_find, route_add-table_add}

pub length-map {ℓ κ} :
    {A : Type ℓ} {B : Type κ} (f : A → B) (xs : List A) → length (map f xs) ≡ length xs
length-map f [] = refl
length-map f (x ∷ xs) = ap suc (length-map f xs)

module _ (rtable : Ptr) (t : Routes) (xs : List Ptr) (r : IsRing t.links rtable xs) (iface : Ptr)
    (now : ℕ) (fuel addr : ℕ) (linkspeed : ℤ) (fresh : Ptr) (room : length xs < fuel)
    (ne : fresh ≢ null) (out : has fresh (rtable ∷ xs) ≡ false) where
  abbrev new_route : Route
  new_route = fill iface addr now (t.route fresh)

  -- A search after the addition answers what the abstract table does.
  find_in_added :
      (other : ℕ)
      → and_then
          (route_add rtable fuel iface addr linkspeed fresh now t)
          (λ (rc, t'). route_find rtable fuel other t')
        ≡ ok (table_find other (table_add new_route (to_u32 linkspeed) (at t xs)))
  find_in_added other =
      let (t', ys, e, ring, routes, within) =
        route_add-table_add rtable t xs r iface now fuel addr linkspeed fresh (omega arith) ne
          out in
      let bound : length ys ≤ fuel = omega (
        arith,
        ap length routes,
        length-map t'.route ys,
        length-map t.route xs,
        length-table_add new_route (to_u32 linkspeed) (at t xs),
      ) in
      rw e (
        route_find-table_find rtable fuel other t' ys ring bound
        ∙ ap (λ rs. ok (table_find other rs)) routes)

  -- In a table with a route before, a search for the address that was just added answers the interface
  -- that was given, unless a loop comes to a route to that address whose speed is not greater than the
  -- one given: then it answers that route's interface. Memory for a new node is given.
  pub find_after_add :
      1 ≤ length xs
      → and_then
          (route_add rtable fuel iface addr linkspeed fresh now t)
          (λ (rc, t'). route_find rtable fuel addr t')
        ≡ ok (chosen new_route (to_u32 linkspeed) (find (leads_to addr) (visited (at t xs))))
  find_after_add h =
      find_in_added addr
      ∙ ap ok (
          table_find-add new_route (to_u32 linkspeed) (at t xs)
            (omega (arith, length-map t.route xs)))

  -- In a table with two routes before, an addition leaves the answer for every other address as it was.
  -- Memory for a new node is given.
  pub find_after_add_ne :
      (other : ℕ)
      → 2 ≤ length xs
      → other ≢ addr
      → and_then
          (route_add rtable fuel iface addr linkspeed fresh now t)
          (λ (rc, t'). route_find rtable fuel other t')
        ≡ route_find rtable fuel other t
  find_after_add_ne other h apart =
      rw (route_find-table_find rtable fuel other t xs r (omega arith)) (
        find_in_added other
        ∙ ap ok (
            table_find-add_ne new_route (to_u32 linkspeed) (at t xs) other
              (omega (arith, length-map t.route xs)) apart))

-- In a table of at most one route `lsp_route_find` answers NULL, whatever the address.
pub route_find_single :
    (rtable : Ptr) (t : Routes) (xs : List Ptr) (fuel addr : ℕ)
    → IsRing t.links rtable xs
    → length xs ≤ 1
    → length xs ≤ fuel
    → route_find rtable fuel addr t ≡ ok null
route_find_single rtable t xs fuel addr r h room =
    route_find-table_find rtable fuel addr t xs r room
    ∙ ap ok (table_find_single addr (at t xs) (omega (arith, length-map t.route xs)))
