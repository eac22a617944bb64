-- ===== src/Routing/Tests.antt =====
-- The theorems about routes, on a table of two.
use liblsp.Prelude.{
  ◌≡◌, refl, ◌∷◌, ◌==◌, if◌then◌else◌, Ptr, null, List, [], ok, ◌+◌, ◌*◌, arith, pos,
}
use liblsp.LspList.Sample.{pair_links, pair_nodes, pair-IsRing, alone_links, alone-IsRing}
use liblsp.Routing.{Route, Routes}
use liblsp.Types.{err_none, err_nomem}
use liblsp.Routing.Sequence.{Call, Answer, find_route, add_route, route_to, code, call_all}
use liblsp.Routing.Sequence.Answers.{Stands, call_all-serve_all}
use liblsp.Routing.Refine.{at}
use liblsp.Routing.Unique.{IsSettled, call_all-IsSettled}
use liblsp.LspList.Ring.{IsRing}

-- Node 2 leads to address 20, node 3 to address 30; a new node holds a speed left over from before.
abbrev content : Ptr → Route
content p =
    if p == 4
    then record { iface = 0; addr = 0; linkspeed = 77; timestamp = 0 }
    else record { iface = p + 100; addr = p * 10; linkspeed = 50; timestamp = 1 }

abbrev two_routes : Routes
two_routes = record { links = pair_links; route = content }

-- Address 20 is found, then rerouted; address 40 is new, and there is no memory for address 50.
abbrev calls : List Call
calls =
    find_route 20
    ∷ add_route 200 20 (pos 10) 4 9
    ∷ find_route 20
    ∷ add_route 201 40 (pos 10) 5 9
    ∷ find_route 40
    ∷ add_route 202 50 (pos 10) null 9
    ∷ find_route 50
    ∷ []

-- What the calls answer.
abbrev answers : List Answer
answers =
    route_to 102
    ∷ code err_none
    ∷ route_to 200
    ∷ code err_none
    ∷ route_to 201
    ∷ code err_nomem
    ∷ route_to null
    ∷ []

abbrev routes_left : List Route
routes_left =
    record { iface = 201; addr = 40; linkspeed = 50; timestamp = 9 }
    ∷ record { iface = 200; addr = 20; linkspeed = 10; timestamp = 9 }
    ∷ record { iface = 103; addr = 30; linkspeed = 50; timestamp = 1 }
    ∷ []

call_all-serve_all_example : Stands 1 (call_all 1 9 calls two_routes) (answers, routes_left)
call_all-serve_all_example =
    call_all-serve_all 1 two_routes pair_nodes calls 9 pair-IsRing
      (tt, (λ e. refl, (tt, (λ e. refl, (tt, (λ e. absurd (e refl), (tt, tt))))))) (omega arith)

abbrev no_routes : Routes
no_routes = record { links = alone_links; route = content }

-- Three routes to one address, where the second addition finds none to replace.
abbrev one_address : List Call
one_address =
    add_route 200 20 (pos 10) 2 9
    ∷ add_route 201 20 (pos 10) 3 9
    ∷ add_route 202 20 (pos 10) 4 9
    ∷ []

call_all-IsSettled_example :
    (t1 : Routes) × (ys : List Ptr) × (answers : List Answer) × (call_all 1 3 one_address no_routes
      ≡ ok (answers, t1))
    × IsRing t1.links 1 ys
    × IsSettled (at t1 ys)
call_all-IsSettled_example =
    call_all-IsSettled 1 no_routes one_address 3 alone-IsRing
      (λ e. refl, (λ e. refl, (λ e. refl, tt))) (omega arith)
