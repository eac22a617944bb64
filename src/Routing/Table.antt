-- ===== src/Routing/Table.antt =====
-- What the routing table does to its routes, as a list.
use liblsp.Prelude.{
  ℕ, suc, ◌≡◌, refl, Bool, none, some, List, [], ◌∷◌, arith, ◌==◌, ltb, if◌then◌else◌, find, length,
  ◌≤◌, ◌≢◌, ◌<◌, Option, Ptr, null,
}
use liblsp.LspList.Walk.{visited}
use liblsp.Routing.{Route}

abbrev pub leads_to : ℕ → Route → Bool
leads_to addr r = r.addr == addr

abbrev pub iface_or_null : Option Route → Ptr
iface_or_null none = null
iface_or_null (some r) = r.iface

-- The interface of the first route to an address among those that a loop comes to.
abbrev pub table_find : ℕ → List Route → Ptr
table_find addr rs = iface_or_null (find (leads_to addr) (visited rs))

abbrev pub rerouted : Ptr → ℕ → ℕ → Route → Route
rerouted iface speed now r = record {
  iface = iface;
  addr = r.addr;
  linkspeed = speed;
  timestamp = now;
}

-- The first route to `addr` goes by `iface`.
abbrev pub reroute : Ptr → ℕ → ℕ → ℕ → List Route → List Route
reroute iface addr speed now [] = []
reroute iface addr speed now (r ∷ rs) =
    if leads_to addr r then rerouted iface speed now r ∷ rs else r ∷ reroute iface addr speed now rs

-- The change to the routes when `found` is the route that a loop comes to.
abbrev pub upsert : Route → ℕ → Option Route → List Route → List Route
upsert new speed none rs = new ∷ rs
upsert new speed (some r) rs =
    if ltb speed r.linkspeed then reroute new.iface new.addr speed new.timestamp rs else rs

-- `new` is what an insertion puts in front.
abbrev pub table_add : Route → ℕ → List Route → List Route
table_add new speed rs = upsert new speed (find (leads_to new.addr) (visited rs)) rs

-- A table of at most one route finds nothing.
pub table_find_single : (addr : ℕ) (rs : List Route) → length rs ≤ 1 → table_find addr rs ≡ null
table_find_single addr [] h = refl
table_find_single addr (r ∷ []) h = refl
table_find_single addr (r ∷ s ∷ rs) h = absurd (omega arith)

pub visited_of_two : (rs : List Route) → 1 < length rs → visited rs ≡ rs
visited_of_two [] h = refl
visited_of_two (r ∷ []) h = absurd (omega arith)
visited_of_two (r ∷ s ∷ rs) h = refl

pub length-reroute :
    (iface : Ptr) (addr speed now : ℕ) (rs : List Route)
    → length (reroute iface addr speed now rs) ≡ length rs
length-reroute iface addr speed now [] = refl
length-reroute iface addr speed now (r ∷ rs) =
    ground (arith, length-reroute iface addr speed now rs)

-- Where there is a route to `addr`, rerouting makes it lead by `iface`, and no other route changes.
find-reroute :
    (iface : Ptr) (addr speed now : ℕ) (rs : List Route) (found : Route)
    → find (leads_to addr) rs ≡ some found
    → iface_or_null (find (leads_to addr) (reroute iface addr speed now rs)) ≡ iface
find-reroute iface addr speed now [] found h = cc
find-reroute iface addr speed now (r ∷ rs) found h =
    ground (arith, find-reroute iface addr speed now rs found)

find-reroute_ne :
    (iface : Ptr) (addr speed now : ℕ) (rs : List Route) (other : ℕ)
    → other ≢ addr
    → iface_or_null (find (leads_to other) (reroute iface addr speed now rs))
      ≡ iface_or_null (find (leads_to other) rs)
find-reroute_ne iface addr speed now [] other ne = refl
find-reroute_ne iface addr speed now (r ∷ rs) other ne =
    ground (arith, find-reroute_ne iface addr speed now rs other ne)

-- What the table finds for an address after an addition to it.
abbrev pub chosen : Route → ℕ → Option Route → Ptr
chosen new speed none = new.iface
chosen new speed (some r) = if ltb speed r.linkspeed then new.iface else r.iface

find-upsert :
    (new : Route) (speed : ℕ) (rs : List Route) (o : Option Route)
    → find (leads_to new.addr) rs ≡ o
    → iface_or_null (find (leads_to new.addr) (upsert new speed o rs)) ≡ chosen new speed o
find-upsert new speed rs none h = ground arith
find-upsert new speed rs (some r) h =
    ground (arith, find-reroute new.iface new.addr speed new.timestamp rs r h)

find-upsert_ne :
    (new : Route) (speed : ℕ) (rs : List Route) (o : Option Route) (other : ℕ)
    → other ≢ new.addr
    → iface_or_null (find (leads_to other) (upsert new speed o rs))
      ≡ iface_or_null (find (leads_to other) rs)
find-upsert_ne new speed rs none other ne = ground arith
find-upsert_ne new speed rs (some r) other ne =
    ground (arith, find-reroute_ne new.iface new.addr speed new.timestamp rs other ne)

length-upsert :
    (new : Route) (speed : ℕ) (rs : List Route) (o : Option Route)
    → length rs ≤ length (upsert new speed o rs)
length-upsert new speed rs none = omega arith
length-upsert new speed rs (some r) =
    ground (arith, length-reroute new.iface new.addr speed new.timestamp rs)

pub length-upsert_le :
    (new : Route) (speed : ℕ) (rs : List Route) (o : Option Route)
    → length (upsert new speed o rs) ≤ suc (length rs)
length-upsert_le new speed rs none = omega arith
length-upsert_le new speed rs (some r) =
    ground (arith, length-reroute new.iface new.addr speed new.timestamp rs)

pub length-table_add :
    (new : Route) (speed : ℕ) (rs : List Route) → length (table_add new speed rs) ≤ suc (length rs)
length-table_add new speed rs =
    length-upsert_le new speed rs (find (leads_to new.addr) (visited rs))

pub table_find-add :
    (new : Route) (speed : ℕ) (rs : List Route)
    → 1 ≤ length rs
    → table_find new.addr (table_add new speed rs)
      ≡ chosen new speed (find (leads_to new.addr) (visited rs))
table_find-add new speed [] h = absurd (omega arith)
table_find-add new speed (r ∷ []) h = ground arith
table_find-add new speed (r ∷ s ∷ rs) h =
    let all = r ∷ s ∷ rs in
    let o = find (leads_to new.addr) all in
    rw (visited_of_two (upsert new speed o all) (omega (arith, length-upsert new speed all o)))
      (find-upsert new speed all o refl)

pub table_find-add_ne :
    (new : Route) (speed : ℕ) (rs : List Route) (other : ℕ)
    → 2 ≤ length rs
    → other ≢ new.addr
    → table_find other (table_add new speed rs) ≡ table_find other rs
table_find-add_ne new speed rs other h ne =
    let o = find (leads_to new.addr) (visited rs) in
    rw
      (
        visited_of_two (upsert new speed o rs) (omega (arith, length-upsert new speed rs o)),
        visited_of_two rs h,
      )
      (find-upsert_ne new speed rs (find (leads_to new.addr) rs) other ne)
