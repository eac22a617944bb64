-- ===== src/Routing/Sequence/Answers.antt =====
-- Any sequence of `lsp_route_add` and `lsp_route_find` against the abstract table.
use liblsp.Prelude.{
  ℕ, suc, ◌≤◌, ◌+◌, ◌≡◌, refl, ap, ◌∙◌, subst, ◌≢◌, Bool, true, false, inl, inr, Bool-cases,
  Option-cases, Option, none, some, List, [], ◌∷◌, arith, ◌==◌, has, find, length, Ptr, null, Run,
  ok, and_then, ℤ, to_u32, eq_of_test,
}
use liblsp.Types.{err_none}
use liblsp.LspList.Ring.{IsRing}
use liblsp.LspList.Walk.{visited}
use liblsp.Routing.{Route, Routes, fill, route_add}
use liblsp.Routing.Table.{leads_to, table_find, length-upsert_le}
use liblsp.Routing.Refine.{
  at, Holds, visited-map, find-map, route_add-found, route_find-table_find, route_add-table_add,
  route_add_nomem,
}
use liblsp.Routing.Lookup.{length-map}
use liblsp.Routing.Sequence.{
  Call, find_route, add_route, Answer, route_to, code, call, call_all, serve_add, serve, serve_all,
  used_by, IsFresh, AllFresh,
}

length-serve_add :
    (full : Bool) (new : Route) (speed : ℕ) (o : Option Route) (rs : List Route)
    → length (serve_add full new speed o rs).1 ≤ suc (length rs)
length-serve_add false new speed none rs = omega arith
length-serve_add true new speed none rs = omega arith
length-serve_add full new speed (some r) rs = length-upsert_le new speed rs (some r)

length-serve :
    (left : Ptr → Route) (c : Call) (rs : List Route) → length (serve left c rs).1 ≤ suc (length rs)
length-serve left (find_route addr) rs = omega arith
length-serve left (add_route iface addr linkspeed fresh now) rs =
    length-serve_add (fresh == null) (fill iface addr now (left fresh)) (to_u32 linkspeed)
      (find (leads_to addr) (visited rs)) rs

-- The result has the answers, and a list of nodes that holds the routes.
abbrev pub Stands : (rtable : Ptr) → Run (List Answer × Routes) → List Answer × List Route → Type 0
Stands rtable result (answers, rs) =
    (t1 : Routes) × (ys : List Ptr) × (result ≡ ok (answers, t1))
    × IsRing t1.links rtable ys
    × (at t1 ys ≡ rs)

module _ (rtable : Ptr) (left : Ptr → Route) where
  -- No node but those `used` is in the list or has changed.
  abbrev Apart : (used : List Ptr) → Routes → List Ptr → Type 0
  Apart used t xs =
      (p : Ptr) → has p used ≡ false → (has p (rtable ∷ xs) ≡ false) × (t.route p ≡ left p)

  -- The list's routes are `rs`, and the other nodes are apart from it.
  abbrev pub Tracks : (used : List Ptr) → Routes → List Route → Type 0
  Tracks used t rs = (xs : List Ptr) × IsRing t.links rtable xs × (at t xs ≡ rs) × Apart used t xs

  abbrev Serves : (used : List Ptr) → Run (Answer × Routes) → Answer × List Route → Type 0
  Serves used result (a, rs) = (t1 : Routes) × (result ≡ ok (a, t1)) × Tracks used t1 rs

  Holds-Serves :
      (used xs : List Ptr) (t : Routes) {rs : List Route} {result : Run (ℕ × Routes)} (fresh : Ptr)
      → Apart used t xs
      → Holds rtable (fresh ∷ xs) t rs result
      → Serves (fresh ∷ used) (and_then result (λ (rc, t1). ok (code rc, t1))) (code err_none, rs)
  Holds-Serves used xs t fresh apart (t1, ys, e, ring, routes, within) = (
    t1,
    rw e refl,
    (
      ys,
      ring,
      routes,
      λ p o.
          let before = apart p (ground (arith, o)) in
          let after = within p (ground (arith, o, before.0)) in
          (ground (arith, before.0, after.0), after.1 ∙ before.1),
    ),
  )

  module _ (t : Routes) (xs used : List Ptr) (ring : IsRing t.links rtable xs)
      (apart : Apart used t xs) (fuel : ℕ) (room : length xs ≤ fuel) where
    call-find :
        (addr : ℕ)
        → Serves used
            (call rtable fuel (find_route addr) t)
            (route_to (table_find addr (at t xs)), at t xs)
    unfolding call
    call-find addr = (
      t,
      rw (route_find-table_find rtable fuel addr t xs ring room) refl,
      (xs, ring, refl, apart),
    )

    call-add :
        (iface : Ptr) (addr : ℕ) (linkspeed : ℤ) (fresh : Ptr) (now : ℕ)
        → (fresh ≢ null → has fresh used ≡ false)
        → Serves
            (fresh ∷ used)
            (call rtable fuel (add_route iface addr linkspeed fresh now) t)
            (serve left (add_route iface addr linkspeed fresh now) (at t xs))
    unfolding call
    call-add iface addr linkspeed fresh now new =
        elim (Option-cases (find (λ q. (t.route q).addr == addr) (visited xs))) [
          | inl e ↦
              rw (visited-map, find-map, e)
                (elim (Bool-cases (fresh == null)) [
                  | inl full ↦
                      let none_left : fresh ≡ null = eq_of_test fresh null full in
                      rw full (
                        t,
                        rw
                            (
                              ap (λ b. route_add rtable fuel iface addr linkspeed b now t)
                                  none_left,
                              route_add_nomem rtable t xs ring iface now fuel addr linkspeed room e,
                            )
                            refl,
                        (xs, ring, refl, λ p o. apart p (ground (arith, o))),
                      )
                  | inr enough ↦
                      let ne : fresh ≢ null = λ n. ground (arith, n, enough) in
                      let out = apart fresh (new ne) in
                      let h =
                        route_add-table_add rtable t xs ring iface now fuel addr linkspeed fresh
                          room ne out.0 in
                      rw enough (
                        Holds-Serves used xs t fresh apart
                          (rw (visited-map, find-map, e, ap (fill iface addr now) out.1) at h))
                ])
          | inr (p, e) ↦
              let h =
                route_add-found rtable t xs ring iface now fuel addr linkspeed fresh p room e in
              rw (visited-map, find-map, e)
                (Holds-Serves used xs t fresh apart (rw (visited-map, find-map, e) at h))
        ]

    call-Serves :
        (c : Call)
        → IsFresh c used
        → Serves (used_by c used) (call rtable fuel c t) (serve left c (at t xs))
    call-Serves (find_route addr) new = call-find addr
    call-Serves (add_route iface addr linkspeed fresh now) new =
        call-add iface addr linkspeed fresh now new

  call-Tracks :
      (c : Call) (used : List Ptr) (t : Routes) (rs : List Route) (fuel : ℕ)
      → Tracks used t rs
      → IsFresh c used
      → length rs ≤ fuel
      → Serves (used_by c used) (call rtable fuel c t) (serve left c rs)
  call-Tracks c used t rs fuel (xs, ring, routes, apart) new room =
      let h : length xs ≤ fuel = omega (arith, ap length routes, length-map t.route xs, room) in
      subst (λ l. Serves (used_by c used) (call rtable fuel c t) (serve left c l)) routes
        (call-Serves t xs used ring apart fuel h c new)

  call_all-Tracks :
      (cs : List Call) (used : List Ptr) (t : Routes) (rs : List Route) (fuel : ℕ)
      → Tracks used t rs
      → AllFresh cs used
      → length rs + length cs ≤ fuel
      → Stands rtable (call_all rtable fuel cs t) (serve_all left cs rs)
  unfolding call_all
  call_all-Tracks [] used t rs fuel (xs, ring, routes, apart) new room = (t, xs, refl, ring, routes)
  call_all-Tracks (c ∷ cs) used t rs fuel tracks (new, later) room =
      let (t1, e, after) = call-Tracks c used t rs fuel tracks new (omega (arith, room)) in
      let (t2, ys, e2, ring, routes) =
        call_all-Tracks cs (used_by c used) t1 (serve left c rs).1 fuel after later
          (omega (arith, room, length-serve left c rs)) in
      (t2, ys, rw (e, e2) refl, ring, routes)

-- Any sequence of `lsp_route_add` and `lsp_route_find` on a table returns, call by call, what the same
-- calls on the list of its routes answer, and leaves a table of the routes that they leave: an addition
-- answers the code LSP_ERR_NOMEM where a loop comes to no route to the address and there is no memory,
-- else LSP_ERR_NONE; a search the interface of the first route to the address that a loop comes to, or
-- NULL. Each block that `lsp_malloc` offers is in no use and was not offered before.
pub call_all-serve_all :
    (rtable : Ptr) (t : Routes) (xs : List Ptr) (cs : List Call) (fuel : ℕ)
    → IsRing t.links rtable xs
    → AllFresh cs (rtable ∷ xs)
    → length xs + length cs ≤ fuel
    → Stands rtable (call_all rtable fuel cs t) (serve_all t.route cs (at t xs))
call_all-serve_all rtable t xs cs fuel ring new room =
    call_all-Tracks rtable t.route cs (rtable ∷ xs) t (at t xs) fuel
      (xs, ring, refl, λ p o. (o, refl)) new (omega (arith, length-map t.route xs, room))
