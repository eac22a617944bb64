-- ===== src/Routing/Refine.antt =====
-- The functions of lsp_routing.c against a list of routes.
use mathlib.Core.Option
use liblsp.Prelude.{
  update_else, ℕ, ◌≤◌, ◌≡◌, refl, ap, subst, ◌≢◌, Bool, true, false, inl, inr, Bool-cases, ltb,
  Option-cases, none, some, List, [], ◌∷◌, map, arith, ◌==◌, if◌then◌else◌, has, has-apart,
  Distinct, find, length, Ptr, null, Run, ok, update, ℤ, to_u32, eq_of_test, test_of_ne,
}
use liblsp.Types.{err_none, err_nomem}
use liblsp.LspList.Ring.{IsRing}
use liblsp.LspList.Insert.{add-front}
use liblsp.LspList.Walk.{visited, list_for-find}
use liblsp.LspList.Mapping.{IsRing-mapping, map-update}
use liblsp.Routing.{Route, Routes, fill, insert_route, replace_route, route_add, route_find}
use liblsp.Routing.Table.{table_find, table_add, reroute, rerouted}

pub visited-map {ℓ κ} :
    {A : Type ℓ} {B : Type κ} (f : A → B) (xs : List A) → visited (map f xs) ≡ map f (visited xs)
visited-map f [] = refl
visited-map f (x ∷ []) = refl
visited-map f (x ∷ y ∷ l) = refl

pub find-map {ℓ κ} :
    {A : Type ℓ} {B : Type κ} (p : B → Bool) (f : A → B) (xs : List A)
    → find p (map f xs) ≡ Option.map f (find (λ x. p (f x)) xs)
find-map p f [] = refl
find-map p f (x ∷ xs) = ground (arith, find-map p f xs)

find-visited {ℓ} :
    {A : Type ℓ} (p : A → Bool) (xs : List A) (a : A)
    → find p (visited xs) ≡ some a
    → find p xs ≡ some a
find-visited p [] a h = cc
find-visited p (x ∷ []) a h = cc
find-visited p (x ∷ y ∷ l) a h = h

find-passes {ℓ} :
    {A : Type ℓ} (p : A → Bool) (xs : List A) (a : A) → find p xs ≡ some a → p a ≡ true
find-passes p [] a h = cc
find-passes p (x ∷ xs) a h = elim (Bool-cases (p x)) [
  | inl hit ↦ let e : x ≡ a = ground arith in rw e at hit
  | inr miss ↦ find-passes p xs a (ground arith)
]

find-has : (p : Ptr → Bool) (xs : List Ptr) (a : Ptr) → find p xs ≡ some a → has a xs ≡ true
find-has p [] a h = cc
find-has p (x ∷ xs) a h = elim (Bool-cases (p x)) [
  | inl hit ↦ ground (arith, h, hit)
  | inr miss ↦ ground (arith, find-has p xs a (ground (arith, h, miss)))
]

-- The routes at the nodes `xs`.
abbrev pub at : Routes → List Ptr → List Route
at t xs = map t.route xs

module _ (rtable : Ptr) where
  -- `lsp_route_find` answers what the list of routes does: the interface of the first route to the
  -- address among those that a loop comes to, or NULL.
  pub route_find-table_find :
      (fuel addr : ℕ) (t : Routes) (xs : List Ptr)
      → IsRing t.links rtable xs
      → length xs ≤ fuel
      → route_find rtable fuel addr t ≡ ok (table_find addr (at t xs))
  unfolding route_find
  route_find-table_find fuel addr t xs r h =
      rw
        (
          list_for-find t.links rtable (λ p. (t.route p).addr == addr) fuel xs r h,
          visited-map,
          find-map,
        )
        (ground arith)

  replace_routes :
      (iface now addr speed : ℕ) (f : Ptr → Route) (p : Ptr) (xs : List Ptr)
      → Distinct xs
      → find (λ q. (f q).addr == addr) xs ≡ some p
      → map (update f p (rerouted iface speed now (f p))) xs
        ≡ reroute iface addr speed now (map f xs)
  replace_routes iface now addr speed f p [] d h = cc
  replace_routes iface now addr speed f p (x ∷ xs) d h =
      let passes : ((f p).addr == addr) ≡ true =
        find-passes (λ q. (f q).addr == addr) (x ∷ xs) p h in
      elim (Bool-cases ((f x).addr == addr)) [
        | inl hit ↦
            let e : x ≡ p = ground arith in
            let rest =
              map-update f p (rerouted iface speed now (f p)) xs
                (subst (λ q. has q xs ≡ false) e d.0) in
            ground (arith, ap f e)
        | inr miss ↦
            let other : (p == x) ≡ false =
              ground (arith, eq_of_test p x, λ (e : p ≡ x). ap (λ q. (f q).addr == addr) e) in
            ground (arith, replace_routes iface now addr speed f p xs d.1)
      ]

  -- Nothing outside the nodes `used` changed, and no other node came into the list.
  abbrev pub Within : (used : List Ptr) → (t t1 : Routes) → (ys : List Ptr) → Type 0
  Within used t t1 ys =
      (p : Ptr) → has p used ≡ false → (has p ys ≡ false) × (t1.route p ≡ t.route p)

  -- What `lsp_route_add` leaves: a list of nodes whose routes are those of the abstract table.
  abbrev pub Holds : (used : List Ptr) → Routes → List Route → Run (ℕ × Routes) → Type 0
  Holds used t rs result =
      (t1 : Routes) × (ys : List Ptr) × (result ≡ ok (err_none, t1))
      × IsRing t1.links rtable ys
      × (at t1 ys ≡ rs)
      × Within used t t1 ys

  module _ (t : Routes) (xs : List Ptr) (r : IsRing t.links rtable xs) (iface : Ptr) (now : ℕ) where
    insert_route-Holds :
        (addr : ℕ) (fresh : Ptr)
        → fresh ≢ null
        → has fresh (rtable ∷ xs) ≡ false
        → Holds
            (fresh ∷ xs)
            t
            (fill iface addr now (t.route fresh) ∷ at t xs)
            (insert_route rtable iface addr fresh now t)
    unfolding insert_route
    insert_route-Holds addr fresh ne out =
        let ne' : (fresh == null) ≡ false = test_of_ne fresh null ne in
        let (m, e, ring, same) =
          add-front fresh (ground arith) xs (IsRing-mapping fresh xs r) out in
        (
          record { links = m; route = update t.route fresh (fill iface addr now (t.route fresh)) },
          fresh ∷ xs,
          rw (ne', e),
          ring,
          ground (arith, map-update t.route fresh (fill iface addr now (t.route fresh)) xs),
          λ p o. (o, ground (arith, o)),
        )

    replace_route-Holds :
        (addr : ℕ) (linkspeed : ℤ) (fresh p : Ptr)
        → find (λ q. (t.route q).addr == addr) xs ≡ some p
        → Holds
            (fresh ∷ xs)
            t
            (if ltb (to_u32 linkspeed) (t.route p).linkspeed
              then reroute iface addr (to_u32 linkspeed) now (at t xs)
              else at t xs)
            (ok (replace_route rtable iface linkspeed now p t))
    unfolding replace_route
    replace_route-Holds addr linkspeed fresh p h =
        elim (Bool-cases (ltb (to_u32 linkspeed) (t.route p).linkspeed)) [
          | inl better ↦ rw better (
            _,
            xs,
            refl,
            r,
            replace_routes iface now addr (to_u32 linkspeed) t.route p xs r.distinct.1 h,
            λ q o.
                let not_used : has q xs ≡ false = ground (arith, o) in
                let apart : (q == p) ≡ false = has-apart q p xs (find-has _ xs p h) not_used in
                (
                  not_used,
                  update_else t.route p _ q (test_of_ne p q (λ e. ground (arith, e, apart))),
                ),
          )
          | inr worse ↦ rw worse (t, xs, refl, r, refl, λ q o. (ground (arith, o), refl))
        ]

    pub route_add-found :
        (fuel addr : ℕ) (linkspeed : ℤ) (fresh p : Ptr)
        → length xs ≤ fuel
        → find (λ q. (t.route q).addr == addr) (visited xs) ≡ some p
        → Holds
            (fresh ∷ xs)
            t
            (table_add (fill iface addr now (t.route fresh)) (to_u32 linkspeed) (at t xs))
            (route_add rtable fuel iface addr linkspeed fresh now t)
    unfolding route_add
    route_add-found fuel addr linkspeed fresh p h e =
        let test : Ptr → Bool = λ q. (t.route q).addr == addr in
        rw (list_for-find t.links rtable test fuel xs r h, visited-map, find-map, e)
          (replace_route-Holds addr linkspeed fresh p (find-visited test xs p e))

    -- With memory for a new node `lsp_route_add` succeeds, and does to the list what `table_add` does to
    -- its routes: where a loop comes to no route to the address, a new one stands in front; where it
    -- comes to one with a greater speed than the one given, that route is replaced; else all stay. No
    -- node but the new one and those of the list changes or comes into the list.
    pub route_add-table_add :
        (fuel addr : ℕ) (linkspeed : ℤ) (fresh : Ptr)
        → length xs ≤ fuel
        → fresh ≢ null
        → has fresh (rtable ∷ xs) ≡ false
        → Holds
            (fresh ∷ xs)
            t
            (table_add (fill iface addr now (t.route fresh)) (to_u32 linkspeed) (at t xs))
            (route_add rtable fuel iface addr linkspeed fresh now t)
    unfolding route_add
    route_add-table_add fuel addr linkspeed fresh h ne out =
        let test : Ptr → Bool = λ p. (t.route p).addr == addr in
        elim (Option-cases (find test (visited xs))) [
          | inl e ↦
              rw (list_for-find t.links rtable test fuel xs r h, visited-map, find-map, e)
                (insert_route-Holds addr fresh ne out)
          | inr (p, e) ↦ route_add-found fuel addr linkspeed fresh p h e
        ]

    -- Where the loop comes to no route to the address, the speed that is given plays no part: neither
    -- in the result nor in the route that is stored.
    pub route_add_ignores_linkspeed :
        (fuel addr : ℕ) (s1 s2 : ℤ) (fresh : Ptr)
        → length xs ≤ fuel
        → find (λ q. (t.route q).addr == addr) (visited xs) ≡ none
        → route_add rtable fuel iface addr s1 fresh now t
          ≡ route_add rtable fuel iface addr s2 fresh now t
    unfolding route_add
    route_add_ignores_linkspeed fuel addr s1 s2 fresh h e =
        rw (list_for-find t.links rtable (λ p. (t.route p).addr == addr) fuel xs r h, e)

    -- Without memory for a new node, where a loop comes to no route to the address, `lsp_route_add` gives
    -- LSP_ERR_NOMEM and changes nothing.
    pub route_add_nomem :
        (fuel addr : ℕ) (linkspeed : ℤ)
        → length xs ≤ fuel
        → find (λ q. (t.route q).addr == addr) (visited xs) ≡ none
        → route_add rtable fuel iface addr linkspeed null now t ≡ ok (err_nomem, t)
    unfolding route_add insert_route
    route_add_nomem fuel addr linkspeed h e =
        rw (list_for-find t.links rtable (λ p. (t.route p).addr == addr) fuel xs r h, e)
