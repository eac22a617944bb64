-- ===== src/Port/Init.antt =====
-- `lsp_port_init`: the list of every port is empty.
use liblsp.Prelude.{
  ℕ, zero, suc, ◌+◌, ◌*◌, ◌≤◌, ◌<◌, ◌≡◌, ◌≢◌, refl, ◌∙◌, sym, subst, true, false, Bool-cases, inl,
  inr, some, [], ◌∷◌, arith, ◌==◌, has, Ptr, null, ok, test_of_ne, eq_of_test,
}
use liblsp.Types.{err_none}
use liblsp.LspList.{Links, valid}
use liblsp.LspList.Ring.{IsRing}
use liblsp.LspList.Insert.{head_init-empty}
use liblsp.Port.{Ports, port_count, sizeof_port, port_closed, sockets, init_heads, port_init}

-- The head at `p` is that of an empty list.
abbrev IsEmptyAt : Links → Ptr → Type 0
IsEmptyAt m p = (m.next p ≡ p) × (m.prev p ≡ p)

IsRing-IsEmptyAt : {m : Links} {p : Ptr} → IsRing m p [] → IsEmptyAt m p
IsRing-IsEmptyAt r = (r.forth.0, r.back)

IsEmptyAt-IsRing : {m : Links} {p : Ptr} → valid m p ≡ true → IsEmptyAt m p → IsRing m p []
IsEmptyAt-IsRing v e = record {
  mapped = (v, tt);
  forth = (e.0, tt);
  back = e.1;
  distinct = (refl, tt);
}

module _ (ps : Ports) where
  -- The heads from `i` on are made, and no other node is touched.
  abbrev MakesHeads : ℕ → ℕ → Links → Links → Type 0
  MakesHeads i left m m' =
      (m'.mapped ≡ m.mapped)
      × ((k : ℕ) → i ≤ k → k < i + left → IsEmptyAt m' (sockets ps k))
      × ((k : ℕ)
          → k < i
          → (m'.next (sockets ps k) ≡ m.next (sockets ps k))
            × (m'.prev (sockets ps k) ≡ m.prev (sockets ps k)))

  init_heads-MakesHeads :
      (left i : ℕ) (m : Links)
      → ((k : ℕ) → i ≤ k → k < i + left → valid m (sockets ps k) ≡ true)
      → (m' : Links) × (init_heads left i ps m ≡ some m') × MakesHeads i left m m'
  unfolding init_heads
  init_heads-MakesHeads zero i m v =
      (m, refl, (refl, (λ k lo hi. absurd (omega arith)), λ k h. (refl, refl)))
  init_heads-MakesHeads (suc left) i m v =
      let (m1, e1, ring, same) =
        head_init-empty {m = m} (sockets ps i) (v i (omega arith) (omega arith)) in
      let (m2, e2, makes) =
        init_heads-MakesHeads left (suc i) m1
          (λ k lo hi. ground (arith, same.0, v k (omega arith) (omega arith))) in
      let at_i = makes.2 i (omega arith) in
      let made_i : IsEmptyAt m2 (sockets ps i) = (at_i.0 ∙ ring.forth.0, at_i.1 ∙ ring.back) in
      (
        m2,
        rw (init_heads, e1) e2,
        (
          makes.0 ∙ same.0,
          λ k lo hi. elim (Bool-cases (k == i)) [
            | inl now ↦ subst (λ j. IsEmptyAt m2 (sockets ps j)) (sym (eq_of_test k i now)) made_i
            | inr later ↦ makes.1 k (ground arith) (omega arith)
          ],
          λ k h.
              let apart : has (sockets ps k) (sockets ps i ∷ []) ≡ false = ground arith in
              let late = makes.2 k (omega arith) in
              let now = same.1 (sockets ps k) apart in (late.0 ∙ now.0, late.1 ∙ now.1),
        ),
      )

-- Where no ports are made yet, and with memory for them, `lsp_port_init` succeeds; it closes every port, and
-- leaves the list of each empty.
pub port_init-IsRing :
    (fresh : Ptr) (m : Links) (ps : Ports)
    → ps.ports ≡ null
    → fresh ≢ null
    → ((k : ℕ) → k < port_count → valid m (fresh + k * sizeof_port + 8) ≡ true)
    → (ps' : Ports) × (m' : Links) × (port_init fresh m ps ≡ ok (err_none, ps', m'))
      × ((k : ℕ) → k < port_count → (ps'.state k ≡ port_closed) × IsRing m' (sockets ps' k) [])
unfolding port_init
port_init-IsRing fresh m ps unset ne v =
    let cleared : Ports = record { ports = fresh; state = λ i. port_closed } in
    let (m', e, makes) =
      init_heads-MakesHeads cleared port_count 0 m (λ k lo hi. v k (omega arith)) in
    (
      cleared,
      m',
      rw (unset, test_of_ne fresh null ne, e),
      λ k h.
          let mapped : valid m' (sockets cleared k) ≡ true = ground (arith, makes.0, v k h) in
          (refl, IsEmptyAt-IsRing mapped (makes.1 k (omega arith) (omega arith))),
    )
