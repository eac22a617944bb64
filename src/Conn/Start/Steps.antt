-- ===== src/Conn/Start/Steps.antt =====
-- An allocation from the pool, against the counter.
use Prim.Native.Nat.{min}
use mathlib.Core.Option
use liblsp.Prelude.{
  true, false, some, and_then, ltb, Option, eq_of_test, ℕ, suc, ◌+◌, ◌*◌, ◌≤◌, ◌<◌, ◌≡◌, ◌≢◌, ◌^◌,
  refl, ap, sym, subst, ◌∙◌, inl, inr, Bool-cases, none, List, ◌∷◌, arith, ◌==◌, length, Ptr, null,
  Run, ok, pos, leb,
}
use liblsp.Types.{default_max_connections}
use liblsp.Conn.{Net, slot, sizeof_conn, conn_alloc}
use liblsp.Conn.Alloc.{
  Busy, IsFresh, SameBut, conn_alloc-Fresh, conn_alloc_full, conn_alloc_overruns,
}
use liblsp.Conn.Start.{IsUsed, IsUsed-Busy, counted, Hands, take_all, Counts}

Hands-cons :
    (c : Ptr) (used : ℕ) (cs : Option (List Ptr)) (result : Run (List Ptr × Net))
    → Hands used cs result
    → Hands used (Option.map (λ l. c ∷ l) cs) (and_then result (λ (l, n). ok (c ∷ l, n)))
Hands-cons c used none result faulted = rw faulted refl
Hands-cons c used (some cs) result (m, e, u) = (m, rw e refl, u)

-- A connection of the pool when another one changes.
slot-SameBut :
    (n m : Net) (i j : ℕ) → SameBut (slot n j) n m → i ≢ j → m.conn (slot m i) ≡ n.conn (slot n i)
slot-SameBut n m i j (others, type, links, freed, pool, size) ne =
    ap (λ p. m.conn (p + i * sizeof_conn)) pool ∙ others (slot n i) (λ e. ne (omega (arith, e)))

module _ (sizeof_handle : ℕ) (len : ℕ) (h0 : 0 < len) (h1 : len < 2 ^ 31) where
  conn_alloc-IsUsed :
      (fresh egroup : Ptr) (n : Net) (j : ℕ)
      → fresh ≢ null
      → egroup ≢ null
      → IsUsed n j
      → j < n.conn_max
      → j < default_max_connections
      → (m : Net) × (conn_alloc sizeof_handle fresh true (pos len) egroup n ≡ ok (slot n j, m))
        × IsUsed m (suc j)
        × (m.conn_pool ≡ n.conn_pool)
        × (m.conn_max ≡ n.conn_max)
  conn_alloc-IsUsed fresh egroup n j ne_q ne_e u max first =
      let (m, e, new, same) =
        conn_alloc-Fresh sizeof_handle fresh len egroup n j ne_q ne_e h0 h1 max first
          (IsUsed-Busy u) (u.rest_free j (omega arith) max) in
      (
        m,
        e,
        record {
          handed_out = λ i h. elim (Bool-cases (i == j)) [
            | inl last ↦
                subst (λ c. IsFresh (m.conn c))
                  (ap (λ p. p + j * sizeof_conn) (sym same.4)
                    ∙ ap (slot m) (sym (eq_of_test i j last)))
                  new
            | inr other ↦
                subst IsFresh (sym (slot-SameBut n m i j same (λ e. ground (arith, e, other))))
                  (u.handed_out i (ground (arith, h, other)))
          ];
          rest_free = λ i above below.
              ap (λ c. c.state) (slot-SameBut n m i j same (λ e. omega (arith, e, above)))
              ∙ u.rest_free i (omega arith) (omega (arith, same.5, below));
        },
        same.4,
        same.5,
      )

  -- An allocation while every connection that `lsp_conn_alloc` looks at is in use, one behind the pool, and
  -- one of the connection `j`, before those that `given` are for.
  pub take_full :
      (g : Ptr × Ptr) (given : List (Ptr × Ptr)) (n : Net) (j : ℕ)
      → IsUsed n j
      → j ≡ default_max_connections
      → j ≤ n.conn_max
      → Counts sizeof_handle len n j given
      → Counts sizeof_handle len n j (g ∷ given)
  unfolding take_all
  take_full g given n j u at within rest =
      let full : ltb j default_max_connections ≡ false = ground (arith, at) in
      let busy : (k : ℕ) → k < default_max_connections → Busy n k =
        λ k h. IsUsed-Busy u k (omega (arith, at)) in
      let held : default_max_connections ≤ n.conn_max = omega (arith, at, within) in
      let same : min (j + length given) default_max_connections
          ≡ min (j + suc (length given)) default_max_connections =
        omega (arith, at) in
      rw (full, conn_alloc_full sizeof_handle g.0 len g.1 n held busy, ← same)
        (Hands-cons null _ _ _ rest)

  pub take_past :
      (g : Ptr × Ptr) (given : List (Ptr × Ptr)) (n : Net) (j : ℕ)
      → IsUsed n j
      → j < default_max_connections
      → j ≡ n.conn_max
      → Counts sizeof_handle len n j (g ∷ given)
  unfolding take_all
  take_past g given n j u first at =
      let low : ltb j default_max_connections ≡ true = ground (arith, first) in
      let past : leb n.conn_max j ≡ true = ground (arith, at) in
      rw
        (
          low,
          past,
          conn_alloc_overruns sizeof_handle g.0 len g.1 n (omega (arith, first, at))
              (λ k h. IsUsed-Busy u k (omega (arith, at))),
        )
        refl

  pub take_inside :
      (g : Ptr × Ptr) (given : List (Ptr × Ptr)) (n : Net) (j : ℕ)
      → g.0 ≢ null
      → g.1 ≢ null
      → IsUsed n j
      → j < default_max_connections
      → j < n.conn_max
      → ((m : Net)
          → IsUsed m (suc j)
          → m.conn_max ≡ n.conn_max
          → Counts sizeof_handle len m (suc j) given)
      → Counts sizeof_handle len n j (g ∷ given)
  unfolding take_all
  take_inside g given n j ne_q ne_e u first inside rest =
      let low : ltb j default_max_connections ≡ true = ground (arith, first) in
      let within : leb n.conn_max j ≡ false = ground (arith, inside) in
      let (n1, e1, u1, pool1, size1) = conn_alloc-IsUsed g.0 g.1 n j ne_q ne_e u inside first in
      let used = min (suc j + length given) default_max_connections in
      let same : used ≡ min (j + suc (length given)) default_max_connections =
        omega (arith, first) in
      rw (low, within, e1, ← same)
        (Hands-cons (slot n j) used _ _ (
          subst
            (λ p.
              Hands used (counted p n.conn_max (suc j) (length given))
                (take_all sizeof_handle len given n1))
            pool1
            (subst
              (λ k.
                Hands used (counted n1.conn_pool k (suc j) (length given))
                  (take_all sizeof_handle len given n1))
              size1 (rest n1 u1 size1))))
