-- ===== src/Routing/Sequence.antt =====
-- Users of the routing table: what they call, and what the abstract table answers.
pub mod Answers
use liblsp.Prelude.{
  ℕ, suc, ◌≤◌, ◌+◌, ◌≡◌, refl, ap, ◌∙◌, subst, ◌≢◌, Bool, true, false, inl, inr, Bool-cases,
  Option-cases, Option, none, some, List, [], ◌∷◌, arith, ◌==◌, if◌then◌else◌, has, find, length,
  Ptr, null, Run, ok, and_then, ℤ, to_u32, eq_of_test,
}
use liblsp.Types.{err_none, err_nomem}
use liblsp.LspList.Ring.{IsRing}
use liblsp.LspList.Walk.{visited}
use liblsp.Routing.{Route, Routes, fill, route_add, route_find}
use liblsp.Routing.Table.{leads_to, table_find, upsert, length-upsert_le}
use liblsp.Routing.Refine.{
  at, Holds, visited-map, find-map, route_add-found, route_find-table_find, route_add-table_add,
  route_add_nomem,
}
use liblsp.Routing.Lookup.{length-map}

-- A call of a user. An addition comes with what `lsp_malloc` returns, should it be called, and the time.
pub data Call : Type 0 where
  find_route : ℕ → Call
  add_route : Ptr → ℕ → ℤ → (fresh : Ptr) → (now : ℕ) → Call

pub data Answer : Type 0 where
  route_to : Ptr → Answer
  code : ℕ → Answer

-- The call on the program's table, and a user's calls one after the other.
unfoldable pub call : (rtable : Ptr) → (fuel : ℕ) → Call → Routes → Run (Answer × Routes)
call rtable fuel (find_route addr) t =
    and_then (route_find rtable fuel addr t) (λ p. ok (route_to p, t))
call rtable fuel (add_route iface addr linkspeed fresh now) t =
    and_then (route_add rtable fuel iface addr linkspeed fresh now t) (λ (rc, t1). ok (code rc, t1))

unfoldable pub call_all :
    (rtable : Ptr) → (fuel : ℕ) → List Call → Routes → Run (List Answer × Routes)
call_all rtable fuel [] t = ok ([], t)
call_all rtable fuel (c ∷ cs) t =
    and_then (call rtable fuel c t)
      (λ (a, t1). and_then (call_all rtable fuel cs t1) (λ (rest, t2). ok (a ∷ rest, t2)))

-- An addition to the abstract table, where `found` is the route that a loop comes to.
abbrev pub serve_add :
    (full : Bool) → Route → ℕ → (found : Option Route) → List Route → Answer × List Route
serve_add full new speed none rs =
    if full then (code err_nomem, rs) else (code err_none, upsert new speed none rs)
serve_add full new speed (some r) rs = (code err_none, upsert new speed (some r) rs)

-- The call on the abstract table. `left` is what is in a block of memory before it becomes a route.
abbrev pub serve : (left : Ptr → Route) → Call → List Route → Answer × List Route
serve left (find_route addr) rs = (route_to (table_find addr rs), rs)
serve left (add_route iface addr linkspeed fresh now) rs =
    serve_add (fresh == null) (fill iface addr now (left fresh)) (to_u32 linkspeed)
      (find (leads_to addr) (visited rs)) rs

abbrev pub serve_all : (left : Ptr → Route) → List Call → List Route → List Answer × List Route
serve_all left [] rs = ([], rs)
serve_all left (c ∷ cs) rs =
    let (a, rs1) = serve left c rs in let (rest, rs2) = serve_all left cs rs1 in (a ∷ rest, rs2)

-- The nodes used after a call.
abbrev pub used_by : Call → List Ptr → List Ptr
used_by (find_route addr) used = used
used_by (add_route iface addr linkspeed fresh now) used = fresh ∷ used

-- The block of memory for a new route, if there is one, is in no use.
abbrev pub IsFresh : Call → List Ptr → Type 0
IsFresh (find_route addr) used = Unit
IsFresh (add_route iface addr linkspeed fresh now) used = fresh ≢ null → has fresh used ≡ false

abbrev pub AllFresh : List Call → List Ptr → Type 0
AllFresh [] used = Unit
AllFresh (c ∷ cs) used = IsFresh c used × AllFresh cs (used_by c used)
