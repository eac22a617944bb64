-- ===== src/Conn/Start/Counted.antt =====
-- From `lsp_conn_init` to the last connection of the pool.
use Prim.Native.Nat.{min}
use liblsp.Prelude.{
  true, ltb, ℕ, suc, ◌+◌, ◌*◌, ◌%◌, ◌≤◌, ◌<◌, ◌≡◌, ◌≢◌, ◌^◌, refl, subst, inl, inr, Bool-cases,
  none, List, [], ◌∷◌, arith, length, Ptr, null, ok, leb, size_mod, test_of_ne, ◌&&◌,
}
use liblsp.Types.{default_max_connections}
use liblsp.Conf.{Conf}
use liblsp.Conn.{Net, sizeof_conn, clear_pool, conn_init}
use liblsp.Conn.Start.{IsUsed, counted, Hands, AllGiven, take_all, Counts}
use liblsp.Conn.Start.Steps.{take_full, take_past, take_inside}

conn_init-IsUsed :
    (malloc : ℕ → Ptr) (conf : Conf) (n : Net)
    → conf.conn_max < 2 ^ 8
    → malloc (conf.conn_max * sizeof_conn) ≢ null
    → n.conn_pool ≡ null
    → (m : Net) × (conn_init malloc conf n ≡ ok (none, m))
      × IsUsed m 0
      × (m.conn_pool ≡ malloc (conf.conn_max * sizeof_conn))
      × (m.conn_max ≡ conf.conn_max)
      × (m.freed ≡ m.conn_pool ∷ n.freed)
unfolding conn_init clear_pool
conn_init-IsUsed malloc conf n small ne unset =
    let size : (conf.conn_max * sizeof_conn) % size_mod ≡ conf.conn_max * sizeof_conn =
      omega arith in
    (
      clear_pool (malloc (conf.conn_max * sizeof_conn)) (conf.conn_max * sizeof_conn)
          (record n { conn_pool = malloc (conf.conn_max * sizeof_conn); conn_max = conf.conn_max }),
      rw (size, unset, test_of_ne _ _ ne) refl,
      record {
        handed_out = λ i h. absurd (omega arith);
        rest_free = λ i h l. ground (arith, in_block i l);
      },
      refl,
      refl,
      refl,
    )
  where
    in_block :
        (i : ℕ)
        → i < conf.conn_max
        → (leb
              (malloc (conf.conn_max * sizeof_conn))
              (malloc (conf.conn_max * sizeof_conn) + i * sizeof_conn)
            && ltb
                (malloc (conf.conn_max * sizeof_conn) + i * sizeof_conn)
                (malloc (conf.conn_max * sizeof_conn) + conf.conn_max * sizeof_conn))
          ≡ true
    in_block i l = ground arith

take_all-Counts :
    (sizeof_handle len : ℕ)
    → 0 < len
    → len < 2 ^ 31
    → (given : List (Ptr × Ptr)) (n : Net) (j : ℕ) → AllGiven given
    → IsUsed n j
    → j ≤ default_max_connections
    → j ≤ n.conn_max
    → Counts sizeof_handle len n j given
unfolding take_all AllGiven
take_all-Counts sizeof_handle len h0 h1 [] n j g u low within =
    let same : j ≡ min (j + 0) default_max_connections = omega (arith, low) in
    (n, refl, subst (IsUsed n) same u)
take_all-Counts sizeof_handle len h0 h1 (g ∷ given) n j ((ne_q, ne_e), more) u low within =
    elim (Bool-cases (ltb j default_max_connections)) [
      | inr full ↦
          take_full sizeof_handle len h0 h1 g given n j u (ground (arith, full, low)) within
            (take_all-Counts sizeof_handle len h0 h1 given n j more u low within)
      | inl first ↦ elim (Bool-cases (leb n.conn_max j)) [
        | inl past ↦
            take_past sizeof_handle len h0 h1 g given n j u (ground (arith, first))
              (ground (arith, past, within))
        | inr inside ↦
            take_inside sizeof_handle len h0 h1 g given n j ne_q ne_e u (ground (arith, first))
              (ground (arith, inside))
              (λ m v size.
                take_all-Counts sizeof_handle len h0 h1 given m (suc j) more v
                  (ground (arith, first)) (ground (arith, inside, size)))
      ]
    ]

-- With a configuration of at most 255 connections and a block for them, the first call of `lsp_conn_init` frees
-- the pool and returns no value. Where the block keeps its contents all the same, the calls of
-- `lsp_conn_alloc` behind it, with a queue length of at least one in the configuration and as long as the system gives
-- them queues and event groups, hand out the connections of the pool one after the other, each as a
-- fresh one. Once LSP_DEFAULT_MAX_CONNECTIONS are in use they give NULL; but where the configuration has
-- fewer, the call behind the last connection reads outside of the pool.
pub pool-counted :
    (sizeof_handle : ℕ) (malloc : ℕ → Ptr) (conf : Conf) (n : Net) (given : List (Ptr × Ptr))
    → conf.conn_max < 2 ^ 8
    → 0 < conf.conn_queuelen
    → conf.conn_queuelen < 2 ^ 8
    → malloc (conf.conn_max * sizeof_conn) ≢ null
    → n.conn_pool ≡ null
    → AllGiven given
    → (m : Net) × (conn_init malloc conf n ≡ ok (none, m))
      × (m.freed ≡ m.conn_pool ∷ n.freed)
      × Hands
          (min (length given) default_max_connections)
          (counted m.conn_pool conf.conn_max 0 (length given))
          (take_all sizeof_handle conf.conn_queuelen given m)
pool-counted sizeof_handle malloc conf n given small h0 h1 ne unset g =
    let (m, e, u, pool, size, freed) = conn_init-IsUsed malloc conf n small ne unset in
    let none : min (0 + length given) default_max_connections
        ≡ min (length given) default_max_connections =
      omega arith in
    (
      m,
      e,
      freed,
      subst
          (λ k.
            Hands k (counted m.conn_pool conf.conn_max 0 (length given))
              (take_all sizeof_handle conf.conn_queuelen given m))
          none
          (subst
            (λ k.
              Hands (min (0 + length given) default_max_connections)
                (counted m.conn_pool k 0 (length given))
                (take_all sizeof_handle conf.conn_queuelen given m))
            size
            (take_all-Counts sizeof_handle conf.conn_queuelen h0 (omega arith) given m 0 g u
              (omega arith) (omega arith))),
    )
