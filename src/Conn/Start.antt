-- ===== src/Conn/Start.antt =====
-- src/lsp_conn.c: the pool from `lsp_conn_init` to its last connection, and as a counter.
pub mod Steps
pub mod Counted
use Prim.Native.Nat.{min}
use mathlib.Core.Option
use liblsp.Prelude.{
  if◌then◌else◌, [], true, some, and_then, ltb, Option, ℕ, zero, suc, ◌+◌, ◌*◌, ◌≤◌, ◌<◌, ◌≡◌, ◌≢◌,
  none, List, ◌∷◌, arith, length, Ptr, null, Run, ok, fault, pos, leb, ◌&&◌,
}
use liblsp.Types.{default_max_connections}
use liblsp.Conn.{Net, slot, sizeof_conn, conn_free_state, conn_alloc}
use liblsp.Conn.Alloc.{Busy, IsFresh}

-- Of the pool the first `j` connections were handed out, and the others are free.
pub record IsUsed (n : Net) (j : ℕ) : Type 0 where
  pub handed_out : (i : ℕ) → i < j → IsFresh (n.conn (slot n i))
  pub rest_free : (i : ℕ) → j ≤ i → i < n.conn_max → (n.conn (slot n i)).state ≡ conn_free_state

pub IsUsed-Busy : {n : Net} {j : ℕ} → IsUsed n j → (i : ℕ) → i < j → Busy n i
IsUsed-Busy u i h e = omega (arith, (u.handed_out i h).closed, e)

-- A pool as a counter: what `k` allocations are given of a pool of `max` of which `j` are in use, `none`
-- where one of them reads behind the pool.
abbrev pub counted : (pool : Ptr) → (max j k : ℕ) → Option (List Ptr)
counted pool max j zero = some []
counted pool max j (suc k) =
    let low = ltb j default_max_connections in
    let rest = counted pool max (if low then suc j else j) k in
    if low && leb max j
    then none
    else Option.map (λ cs. (if low then pool + j * sizeof_conn else null) ∷ cs) rest

-- What the program does is what the counter says, and `used` connections are in use then.
abbrev pub Hands : (used : ℕ) → Option (List Ptr) → Run (List Ptr × Net) → Type 0
Hands used none result = result ≡ fault
Hands used (some cs) result = (m : Net) × (result ≡ ok (cs, m)) × IsUsed m used

-- A queue's memory and an event group are given for each of the allocations.
unfoldable pub AllGiven : List (Ptr × Ptr) → Type 0
AllGiven [] = Unit
AllGiven (g ∷ given) = ((g.0 ≢ null) × (g.1 ≢ null)) × AllGiven given

module _ (sizeof_handle : ℕ) (len : ℕ) where
  -- So many allocations, each with what the system gives for a queue and for an event group.
  unfoldable pub take_all : List (Ptr × Ptr) → Net → Run (List Ptr × Net)
  take_all [] n = ok ([], n)
  take_all (g ∷ given) n =
      and_then (conn_alloc sizeof_handle g.0 true (pos len) g.1 n)
        (λ (c, n1). and_then (take_all given n1) (λ (cs, n2). ok (c ∷ cs, n2)))

  -- The allocations `given` from `n`, of which `j` connections are in use, do what the counter says.
  abbrev pub Counts : Net → (j : ℕ) → List (Ptr × Ptr) → Type 0
  Counts n j given =
      Hands (min (j + length given) default_max_connections)
        (counted n.conn_pool n.conn_max j (length given)) (take_all given n)
