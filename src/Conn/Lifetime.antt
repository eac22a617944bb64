-- ===== src/Conn/Lifetime.antt =====
-- src/lsp_conn.c: which connections the clients of the pool hold, over allocations and frees.
use liblsp.Prelude.{
  ℕ, ◌≤◌, ◌≡◌, ◌≢◌, inl, inr, refl, ◌∙◌, Bool, Bool-cases, true, false, List, [], ◌∷◌, arith, ◌==◌,
  if◌then◌else◌, Ptr, null, of_branches, Run, ok, and_then, has, Distinct, ℤ, test_of_eq,
}
use liblsp.Types.{err_none, default_max_connections}
use liblsp.Conn.{Net, set_conn, conn_free_state, conn_closed, conn_server, conn_alloc}
use liblsp.Conn.Close.{conn_free}
use liblsp.Conn.Server.{conn_free-closed}
use liblsp.Conn.Pool.{IsAllocation, conn_alloc-IsAllocation}

-- A call of `lsp_conn_alloc`, with what the system gives in it, or of `lsp_conn_free`.
pub data Call : Type 0 where
  alloc_call : (fresh : Ptr) → (setup : Bool) → (len : ℤ) → (egroup : Ptr) → Call
  free_call : Ptr → Call

-- The connections held, without `c`.
abbrev pub drop_conn : Ptr → List Ptr → List Ptr
drop_conn c [] = []
drop_conn c (d ∷ held) = if c == d then drop_conn c held else d ∷ drop_conn c held

pub has-drop_conn :
    (d c : Ptr) (held : List Ptr) → has d (drop_conn c held) ≡ true → (has d held ≡ true) × (d ≢ c)
has-drop_conn d c [] h = absurd (ground arith)
has-drop_conn d c (e ∷ held) h = elim (Bool-cases (has d (drop_conn c held))) [
  | inl there ↦ let (had, apart) = has-drop_conn d c held there in (ground (arith, had), apart)
  | inr not_there ↦ (ground (arith, h, not_there), λ same. ground (arith, h, not_there, same))
]

pub lacks-drop_conn :
    (d c : Ptr) (held : List Ptr) → has d held ≡ false → has d (drop_conn c held) ≡ false
lacks-drop_conn d c [] h = refl
lacks-drop_conn d c (e ∷ held) h = ground (arith, lacks-drop_conn d c held)

pub Distinct-drop_conn : (c : Ptr) (held : List Ptr) → Distinct held → Distinct (drop_conn c held)
Distinct-drop_conn c [] h = tt
Distinct-drop_conn c (e ∷ held) h = elim (Bool-cases (c == e)) [
  | inl same ↦ rw same (Distinct-drop_conn c held h.1)
  | inr other ↦ rw other (lacks-drop_conn e c held h.0, Distinct-drop_conn c held h.1)
]

-- A pool as large as `lsp_conn_alloc` takes it to be, without servers, of which the connections in `held` are
-- in use, each of them held once.
pub record IsHeld (n : Net) (held : List Ptr) : Type 0 where
  pub large : default_max_connections ≤ n.conn_max
  pub no_server : (d : Ptr) → (n.conn d).type ≢ conn_server
  pub in_use : (d : Ptr) → has d held ≡ true → (n.conn d).state ≡ conn_closed
  pub once : Distinct held

pub after_free :
    {n : Net} (c : Ptr) {held : List Ptr}
    → IsHeld n held
    → IsHeld (set_conn c (record (n.conn c) { state = conn_free_state }) n) (drop_conn c held)
after_free {n} c {held} h = record {
  large = h.large;
  no_server = λ d e. h.no_server d (ground (arith, e));
  in_use =
      λ d i. let (old, apart) = has-drop_conn d c held i in ground (arith, h.in_use d old, apart);
  once = Distinct-drop_conn c held h.once;
}

pub after_alloc :
    {n m : Net} (c : Ptr) {held : List Ptr}
    → IsHeld n held
    → IsAllocation n c m
    → IsHeld m (if c == null then held else c ∷ held)
after_alloc {n} {m} c {held} h a = elim a.at_most_one [
  | inl (failed, same) ↦ rw (test_of_eq c null failed) (record {
    large = omega (arith, h.large, a.max_kept);
    no_server = λ d e. h.no_server d (ground (arith, e, a.type_kept d));
    in_use = λ d i. same d ∙ h.in_use d i;
    once = h.once;
  })
  | inr (free, closed, default, rest) ↦
      let new : has c held ≡ false = elim (Bool-cases (has c held)) [
        | inl old ↦ absurd (omega (arith, free, h.in_use c old))
        | inr new ↦ new
      ] in
      let closed_at : (d : Ptr) → has d (c ∷ held) ≡ true → (m.conn d).state ≡ conn_closed = λ d i.
        elim (Bool-cases (d == c)) [
          | inl same ↦ ground (arith, closed, same)
          | inr other ↦
              rest d (λ e. ground (arith, e, other)) ∙ h.in_use d (ground (arith, i, other))
        ] in
      let kept : (xs : List Ptr)
          → ((d : Ptr) → has d xs ≡ true → has d (c ∷ held) ≡ true)
          → Distinct xs
          → IsHeld m xs =
        λ xs within apart. record {
          large = omega (arith, h.large, a.max_kept);
          no_server = λ d e. h.no_server d (ground (arith, e, a.type_kept d));
          in_use = λ d i. closed_at d (within d i);
          once = apart;
        } in
      of_branches (IsHeld m) (c == null) (kept held (λ d i. ground (arith, i)) h.once)
        (kept (c ∷ held) (λ d i. i) (new, h.once))
]

module _ (sizeof_handle : ℕ) (rc : Ptr → ℕ) (lock : ℕ → ℕ) (destroyed : ℕ) where
  -- A client frees what it holds, and keeps it if that fails. `rc` is what `lsp_conn_free` finds in the
  -- variable of that name.
  unfoldable pub perform : Call → Net × List Ptr → Run (Net × List Ptr)
  perform (alloc_call fresh setup len egroup) (n, held) =
      and_then (conn_alloc sizeof_handle fresh setup len egroup n)
        (λ r. ok (r.1, if r.0 == null then held else r.0 ∷ held))
  perform (free_call c) (n, held) =
      if has c held
      then and_then (conn_free rc lock destroyed 1 c n)
          (λ r. ok (r.1, if r.0 == err_none then drop_conn c held else held))
      else ok (n, held)

  unfoldable pub perform_all : List Call → Net × List Ptr → Run (Net × List Ptr)
  perform_all [] s = ok s
  perform_all (call ∷ calls) s = and_then (perform call s) (perform_all calls)

  perform-IsHeld :
      (call : Call) {n : Net} {held : List Ptr}
      → IsHeld n held
      → (m : Net) × (rest : List Ptr) × (perform call (n, held) ≡ ok (m, rest)) × IsHeld m rest
  unfolding perform
  perform-IsHeld (alloc_call fresh setup len egroup) {n} {held} h =
      let (r, e, a) = conn_alloc-IsAllocation sizeof_handle fresh setup len egroup n h.large in
      (r.1, if r.0 == null then held else r.0 ∷ held, rw e, after_alloc r.0 h a)
  perform-IsHeld (free_call c) {n} {held} h = elim (Bool-cases (has c held)) [
    | inr unknown ↦ (n, held, rw unknown, h)
    | inl known ↦
        let freed = conn_free-closed rc lock destroyed 0 c n (h.in_use c known) (h.no_server c) in
        elim (Bool-cases (rc c == err_none)) [
          | inl fine ↦ (
            set_conn c (record (n.conn c) { state = conn_free_state }) n,
            drop_conn c held,
            rw (known, freed, fine),
            after_free c h,
          )
          | inr bad ↦ (n, held, rw (known, freed, bad), h)
        ]
  ]

  -- A sequence of allocations and of frees of what is held ends without a fault, whatever memory and
  -- event groups the system has, and leaves each connection with one holder at most, and in use as long
  -- as it is held. The pool is as large as `lsp_conn_alloc` takes it to be, and has no server in it.
  pub perform_all-IsHeld :
      (calls : List Call) {n : Net} {held : List Ptr}
      → IsHeld n held
      → (m : Net) × (rest : List Ptr) × (perform_all calls (n, held) ≡ ok (m, rest)) × IsHeld m rest
  unfolding perform_all
  perform_all-IsHeld [] {n} {held} h = (n, held, refl, h)
  perform_all-IsHeld (call ∷ calls) {n} {held} h =
      let (m, rest, e, h1) = perform-IsHeld call h in
      let (k, last, e1, h2) = perform_all-IsHeld calls h1 in (k, last, rw (e, e1), h2)
