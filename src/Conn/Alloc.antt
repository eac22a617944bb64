-- ===== src/Conn/Alloc.antt =====
-- `lsp_conn_alloc`: which connection it takes from the pool, and what it makes of it.
use liblsp.Prelude.{
  ℕ, zero, suc, ◌+◌, ◌≤◌, ◌<◌, ◌≡◌, ◌≢◌, ap, ◌^◌, pos, refl, true, false, inl, inr, Bool-cases,
  eq_of_test, test_of_ne, none, some, arith, ◌==◌, leb, Ptr, null, ok, fault,
}
use liblsp.Types.{default_max_connections, sizeof_ptr}
use liblsp.Queue.Create.{create-some}
use liblsp.Conn.{
  Conn, Net, slot, set_conn, set_queue, conn_free_state, conn_closed, def_conn_attr, find_free,
  reset_conn, ensure_queue, with_queue, ensure_egroup, prepare, conn_alloc,
}

-- The connection with the number `i` is in use.
abbrev pub Busy : Net → ℕ → Type 0
Busy n i = (n.conn (slot n i)).state ≢ conn_free_state

module _ (n : Net) where
  find_free_first :
      (left j i : ℕ)
      → j ≤ i
      → i < j + left
      → i < n.conn_max
      → ((k : ℕ) → k < i → Busy n k)
      → (n.conn (slot n i)).state ≡ conn_free_state
      → find_free left j n ≡ ok (some (slot n i))
  unfolding find_free
  find_free_first zero j i lo hi max busy free = absurd (omega arith)
  find_free_first (suc left) j i lo hi max busy free =
      let inside : leb n.conn_max j ≡ false = ground arith in
      elim (Bool-cases (j == i)) [
        | inl same ↦
            let e : j ≡ i = eq_of_test j i same in
            rw (find_free, inside, e, free) (ap (λ k. ok (some (slot n k))) e)
        | inr other ↦
            let below : j < i = ground arith in
            rw (find_free, inside, test_of_ne _ _ (busy j below))
              (find_free_first left (suc j) i below (omega arith) max busy free)
      ]

  find_free-none :
      (left j : ℕ)
      → j + left ≤ n.conn_max
      → ((k : ℕ) → k < j + left → Busy n k)
      → find_free left j n ≡ ok none
  unfolding find_free
  find_free-none zero j max busy = refl
  find_free-none (suc left) j max busy =
      let inside : leb n.conn_max j ≡ false = ground arith in
      rw (find_free, inside, test_of_ne _ _ (busy j (omega arith)))
        (find_free-none left (suc j) (omega arith) (λ k h. busy k (omega arith)))

  find_free_outside :
      (left j : ℕ)
      → j ≤ n.conn_max
      → n.conn_max < j + left
      → ((k : ℕ) → k < n.conn_max → Busy n k)
      → find_free left j n ≡ fault
  unfolding find_free
  find_free_outside zero j lo hi busy = absurd (omega arith)
  find_free_outside (suc left) j lo hi busy = elim (Bool-cases (leb n.conn_max j)) [
    | inl past ↦ rw (find_free, past)
    | inr inside ↦
        rw (find_free, inside, test_of_ne _ _ (busy j (ground arith)))
          (find_free_outside left (suc j) (ground arith) (omega arith) busy)
  ]

-- Only the connection at `c` may differ, and of it neither its type nor its links; the pool is the same.
abbrev pub SameBut : Ptr → Net → Net → Type 0
SameBut c n m =
    ((d : Ptr) → d ≢ c → m.conn d ≡ n.conn d)
    × ((m.conn c).type ≡ (n.conn c).type)
    × (m.links ≡ n.links)
    × (m.freed ≡ n.freed)
    × (m.conn_pool ≡ n.conn_pool)
    × (m.conn_max ≡ n.conn_max)

module _ (sizeof_handle : ℕ) (fresh : Ptr) (len : ℕ) (c : Ptr) where
  ensure_queue_lem :
      (n : Net)
      → fresh ≢ null
      → 0 < len
      → len < 2 ^ 31
      → (m : Net) × (ensure_queue sizeof_handle fresh true (pos len) c n ≡ (true, m))
        × ((m.conn c).rx_queue ≢ null)
        × SameBut c n m
  unfolding ensure_queue with_queue
  ensure_queue_lem n ne h0 h1 =
      let (q, e) = create-some sizeof_handle (λ size. fresh) null (pos len) sizeof_ptr (λ k. ne) in
      elim (Bool-cases ((n.conn c).rx_queue == null)) [
        | inl absent ↦ (
          set_conn c (record (n.conn c) { rx_queue = fresh }) (set_queue fresh q n),
          rw (absent, e),
          ground (arith, ne),
          (λ d h. ground (arith, h), ground arith, refl, refl, refl, refl),
        )
        | inr present ↦
            (n, rw present, λ e. ground (arith, e), (λ d h. refl, refl, refl, refl, refl, refl))
      ]

  ensure_egroup_lem :
      (n : Net) (egroup : Ptr)
      → egroup ≢ null
      → (m : Net) × (ensure_egroup egroup c n ≡ (true, m))
        × ((m.conn c).egroup ≢ null)
        × ((m.conn c).rx_queue ≡ (n.conn c).rx_queue)
        × SameBut c n m
  unfolding ensure_egroup
  ensure_egroup_lem n egroup ne = elim (Bool-cases ((n.conn c).egroup == null)) [
    | inl absent ↦ (
      set_conn c (record (n.conn c) { egroup = egroup }) n,
      rw (absent, test_of_ne egroup null ne),
      ground (arith, ne),
      ground arith,
      (λ d h. ground (arith, h), ground arith, refl, refl, refl, refl),
    )
    | inr present ↦
        (n, rw present, λ e. ground (arith, e), refl, (λ d h. refl, refl, refl, refl, refl, refl))
  ]

-- A connection as `lsp_conn_alloc` hands it out.
pub record IsFresh (v : Conn) : Type 0 where
  pub closed : v.state ≡ conn_closed
  pub attr_def : v.attr ≡ def_conn_attr
  pub orphan : v.peer ≡ null
  pub has_queue : v.rx_queue ≢ null
  pub has_egroup : v.egroup ≢ null

module _ (sizeof_handle : ℕ) (fresh : Ptr) (len : ℕ) (egroup : Ptr) (n : Net) where
  -- With memory for what it lacks, and a length of at least one for its queue, `lsp_conn_alloc`
  -- hands out the first free connection of the pool, if it is among the first
  -- LSP_DEFAULT_MAX_CONNECTIONS: closed, with the default attributes, a queue and an event group.
  -- No other connection changes, no link changes and nothing is freed, and the connection's type
  -- stays what it was.
  pub conn_alloc-Fresh :
      (i : ℕ)
      → fresh ≢ null
      → egroup ≢ null
      → 0 < len
      → len < 2 ^ 31
      → i < n.conn_max
      → i < default_max_connections
      → ((k : ℕ) → k < i → Busy n k)
      → (n.conn (slot n i)).state ≡ conn_free_state
      → (m : Net) × (conn_alloc sizeof_handle fresh true (pos len) egroup n ≡ ok (slot n i, m))
        × IsFresh (m.conn (slot n i))
        × SameBut (slot n i) n m
  unfolding conn_alloc prepare reset_conn
  conn_alloc-Fresh i ne_q ne_e h0 h1 max first busy free =
      let c = slot n i in
      let (n1, e1, q1, same1) = ensure_queue_lem sizeof_handle fresh len c n ne_q h0 h1 in
      let (n2, e2, g2, q2, same2) = ensure_egroup_lem sizeof_handle fresh len c n1 egroup ne_e in
      (
        reset_conn c n2,
        rw (
          find_free_first n default_max_connections 0 i (omega arith) (omega arith) max busy free,
          e1,
          e2,
        ),
        record {
          closed = ground arith;
          attr_def = ground arith;
          orphan = ground arith;
          has_queue = λ e. q1 (ground (arith, e, q2));
          has_egroup = λ e. g2 (ground (arith, e));
        },
        (
          λ d h. ground (arith, same1.0 d h, same2.0 d h),
          ground (arith, same1.1, same2.1),
          cc,
          cc,
          cc,
          cc,
        ),
      )

  -- Where the first LSP_DEFAULT_MAX_CONNECTIONS connections are in use, `lsp_conn_alloc` gives NULL and
  -- changes nothing; the pool may be larger.
  pub conn_alloc_full :
      default_max_connections ≤ n.conn_max
      → ((k : ℕ) → k < default_max_connections → Busy n k)
      → conn_alloc sizeof_handle fresh true (pos len) egroup n ≡ ok (null, n)
  unfolding conn_alloc prepare
  conn_alloc_full max busy = rw (find_free-none n default_max_connections 0 max busy)

  -- Where all connections of a smaller pool are in use, `lsp_conn_alloc` reads behind the pool.
  pub conn_alloc_overruns :
      n.conn_max < default_max_connections
      → ((k : ℕ) → k < n.conn_max → Busy n k)
      → conn_alloc sizeof_handle fresh true (pos len) egroup n ≡ fault
  unfolding conn_alloc prepare
  conn_alloc_overruns max busy =
      rw (find_free_outside n default_max_connections 0 (omega arith) max busy)
