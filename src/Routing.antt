-- ===== src/Routing.antt =====
-- src/lsp_routing.c: the table of routes, a circular list of nodes from `lsp_malloc`.
pub mod Table
pub mod Refine
pub mod Lookup
pub mod Sequence
pub mod Unique
mod Tests
use liblsp.Prelude.{
  ℕ, Bool, true, false, Option, none, some, ◌==◌, ltb, if◌then◌else◌, Ptr, null, Run, ok, and_then,
  access, update, ℤ, to_u32,
}
use liblsp.Types.{err_none, err_nomem}
use liblsp.LspList.{mapping, Links, add, list_for}
use liblsp.Mutex.{mutex_init}

-- `lsp_route_t`, without its list node.
pub record Route : Type 0 where
  pub iface : Ptr
  pub addr : ℕ
  pub linkspeed : ℕ
  pub timestamp : ℕ

-- The memory of the route nodes: their links, and what else is in them.
pub record Routes : Type 0 where
  pub links : Links
  pub route : Ptr → Route

-- The assignments to a new route. `route->linkspeed;` assigns nothing.
abbrev pub fill : Ptr → ℕ → ℕ → Route → Route
fill iface addr now r = record r { iface = iface; addr = addr; timestamp = now }

-- `lsp_routing_init`, from what `pthread_mutex_init` returns.
unfoldable pub routing_init : (pthread_mutex_init : ℕ) → ℕ
routing_init pthread_mutex_init = mutex_init pthread_mutex_init

module _ (rtable : Ptr) where
  -- The branch for no route found. `fresh` is the result of `lsp_malloc`, `now` of `lsp_gettime_ms`.
  unfoldable pub insert_route : Ptr → ℕ → (fresh : Ptr) → (now : ℕ) → Routes → Run (ℕ × Routes)
  insert_route iface addr fresh now t =
      if fresh == null
      then ok (err_nomem, t)
      else and_then (access (add fresh rtable (mapping fresh t.links))) (λ m. ok (
        err_none,
        record { links = m; route = update t.route fresh (fill iface addr now (t.route fresh)) },
      ))

  -- The branch for the route at `p`. `linkspeed`, an `int`, is compared as `uint32_t`.
  unfoldable pub replace_route : Ptr → ℤ → (now : ℕ) → Ptr → Routes → ℕ × Routes
  replace_route iface linkspeed now p t =
      if ltb (to_u32 linkspeed) (t.route p).linkspeed
      then (
        err_none,
        record t {
          route = update t.route p (record {
            iface = iface;
            addr = (t.route p).addr;
            linkspeed = to_u32 linkspeed;
            timestamp = now;
          });
        },
      )
      else (err_none, t)

  unfoldable pub route_add :
      (fuel : ℕ) → Ptr → ℕ → ℤ → (fresh : Ptr) → (now : ℕ) → Routes → Run (ℕ × Routes)
  route_add fuel iface addr linkspeed fresh now t =
      and_then (list_for fuel (λ p. (t.route p).addr == addr) rtable t.links) (λ c. elim c [
        | none ↦ insert_route iface addr fresh now t
        | some p ↦ ok (replace_route iface linkspeed now p t)
      ])

  -- The result is NULL where no route is found.
  unfoldable pub route_find : (fuel : ℕ) → ℕ → Routes → Run Ptr
  route_find fuel addr t =
      and_then (list_for fuel (λ p. (t.route p).addr == addr) rtable t.links)
        (λ c. elim c [ none ↦ ok null | some p ↦ ok (t.route p).iface ])
