-- ===== src/Routing/Unique.antt =====
-- The routes of a table to one address.
use liblsp.Prelude.{
  ℕ, ◌≤◌, ◌≡◌, refl, subst, sym, Bool, true, false, inl, inr, Bool-cases, Option, none, some, List,
  [], ◌∷◌, arith, ◌==◌, find, length, Ptr, null, ok, to_u32, ltb,
}
use liblsp.LspList.Ring.{IsRing}
use liblsp.LspList.Walk.{visited}
use liblsp.Routing.{Route, Routes, fill}
use liblsp.Routing.Table.{leads_to, reroute, visited_of_two, length-reroute}
use liblsp.Routing.Refine.{at}
use liblsp.Routing.Sequence.{
  Call, find_route, add_route, Answer, call_all, serve_add, serve, serve_all, AllFresh,
}
use liblsp.Routing.Sequence.Answers.{call_all-serve_all}

-- No two routes but the last two of the list lead to one address: a loop over those behind a route finds
-- none to its address, and such a loop comes to no route where there is one alone.
abbrev pub IsSettled : List Route → Type 0
IsSettled [] = Unit
IsSettled (r ∷ rs) = (find (leads_to r.addr) (visited rs) ≡ none) × IsSettled rs

module _ (iface : Ptr) (addr speed now : ℕ) where
  find-reroute-none :
      (a : ℕ) (rs : List Route)
      → find (leads_to a) rs ≡ none
      → find (leads_to a) (reroute iface addr speed now rs) ≡ none
  find-reroute-none a [] h = refl
  find-reroute-none a (r ∷ rs) h = ground (arith, h, find-reroute-none a rs)

  visited-reroute-none :
      (a : ℕ) (rs : List Route)
      → find (leads_to a) (visited rs) ≡ none
      → find (leads_to a) (visited (reroute iface addr speed now rs)) ≡ none
  visited-reroute-none a [] h = refl
  visited-reroute-none a (r ∷ []) h = ground arith
  visited-reroute-none a (r ∷ u ∷ rs) h =
      let all = r ∷ u ∷ rs in
      rw
        (visited_of_two (reroute iface addr speed now all)
          (omega (arith, length-reroute iface addr speed now all)))
        (find-reroute-none a all h)

  reroute-IsSettled : (rs : List Route) → IsSettled rs → IsSettled (reroute iface addr speed now rs)
  reroute-IsSettled [] s = tt
  reroute-IsSettled (r ∷ rs) (new, s) = elim (Bool-cases (leads_to addr r)) [
    | inl hit ↦ rw hit (new, s)
    | inr miss ↦ rw miss (visited-reroute-none r.addr rs new, reroute-IsSettled rs s)
  ]

serve_add-IsSettled :
    (full : Bool) (new : Route) (speed : ℕ) (o : Option Route) (rs : List Route)
    → find (leads_to new.addr) (visited rs) ≡ o
    → IsSettled rs
    → IsSettled (serve_add full new speed o rs).1
serve_add-IsSettled true new speed none rs e s = s
serve_add-IsSettled false new speed none rs e s = (e, s)
serve_add-IsSettled full new speed (some r) rs e s = elim (Bool-cases (ltb speed r.linkspeed)) [
  | inl better ↦ rw better (reroute-IsSettled new.iface new.addr speed new.timestamp rs s)
  | inr worse ↦ rw worse s
]

serve-IsSettled :
    (left : Ptr → Route) (c : Call) (rs : List Route) → IsSettled rs → IsSettled (serve left c rs).1
serve-IsSettled left (find_route addr) rs s = s
serve-IsSettled left (add_route iface addr linkspeed fresh now) rs s =
    serve_add-IsSettled (fresh == null) (fill iface addr now (left fresh)) (to_u32 linkspeed)
      (find (leads_to addr) (visited rs)) rs refl s

serve_all-IsSettled :
    (left : Ptr → Route) (cs : List Call) (rs : List Route)
    → IsSettled rs
    → IsSettled (serve_all left cs rs).1
serve_all-IsSettled left [] rs s = s
serve_all-IsSettled left (c ∷ cs) rs s =
    serve_all-IsSettled left cs (serve left c rs).1 (serve-IsSettled left c rs s)

-- Whatever is added to an empty table and searched in it, all calls end, and in the table that they leave
-- no two routes but the last two lead to one address. Each block that `lsp_malloc` offers is in no use and
-- was not offered before.
pub call_all-IsSettled :
    (rtable : Ptr) (t : Routes) (cs : List Call) (fuel : ℕ)
    → IsRing t.links rtable []
    → AllFresh cs (rtable ∷ [])
    → length cs ≤ fuel
    → (t1 : Routes) × (ys : List Ptr) × (answers : List Answer) × (call_all rtable fuel cs t
        ≡ ok (answers, t1))
      × IsRing t1.links rtable ys
      × IsSettled (at t1 ys)
call_all-IsSettled rtable t cs fuel ring new room =
    let (t1, ys, e, ring1, routes) =
      call_all-serve_all rtable t [] cs fuel ring new (omega arith) in
    (
      t1,
      ys,
      (serve_all t.route cs []).0,
      e,
      ring1,
      subst IsSettled (sym routes) (serve_all-IsSettled t.route cs [] tt),
    )
