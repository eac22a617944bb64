-- ===== src/Conn/Pool.antt =====
-- src/lsp_conn.c: the pool over a sequence of allocations and frees.
use liblsp.Prelude.{
  update_here, update_else, ℕ, zero, suc, ◌+◌, ◌≤◌, ◌≡◌, ◌≢◌, ◌⊎◌, inl, inr, refl, ◌∙◌, Bool,
  Bool-cases, not, true, false, leb, Option, none, some, arith, ◌==◌, if◌then◌else◌, Ptr, null, ok,
  ℤ, eq_of_test, test_of_eq, test_of_ne, ap, sym,
}
use liblsp.Types.{default_max_connections, sizeof_ptr}
use liblsp.Queue.{Queue, create}
use liblsp.Conn.{
  Conn, Net, slot, set_conn, set_queue, conn_free_state, conn_closed, def_conn_attr, find_free,
  reset_conn, with_queue, ensure_queue, ensure_egroup, prepare, conn_alloc,
}

-- The size of the pool, the links, and the states, types and attributes in it, are the same.
pub record Same (n m : Net) : Type 0 where
  pub same_max : m.conn_max ≡ n.conn_max
  pub same_state : (d : Ptr) → (m.conn d).state ≡ (n.conn d).state
  pub same_type : (d : Ptr) → (m.conn d).type ≡ (n.conn d).type
  pub same_attr : (d : Ptr) → (m.conn d).attr ≡ (n.conn d).attr
  pub same_links : m.links ≡ n.links

Same-refl : (n : Net) → Same n n
Same-refl n = record {
  same_max = refl;
  same_state = λ d. refl;
  same_type = λ d. refl;
  same_attr = λ d. refl;
  same_links = refl;
}

Same-trans : {n m k : Net} → Same n m → Same m k → Same n k
Same-trans a b = record {
  same_max = b.same_max ∙ a.same_max;
  same_state = λ d. b.same_state d ∙ a.same_state d;
  same_type = λ d. b.same_type d ∙ a.same_type d;
  same_attr = λ d. b.same_attr d ∙ a.same_attr d;
  same_links = b.same_links ∙ a.same_links;
}

set_conn-Same :
    (c : Ptr) (v : Conn) (n : Net)
    → v.state ≡ (n.conn c).state
    → v.type ≡ (n.conn c).type
    → v.attr ≡ (n.conn c).attr
    → Same n (set_conn c v n)
set_conn-Same c v n s t a = record {
  same_max = refl;
  same_state = λ d. ground (arith, s);
  same_type = λ d. ground (arith, t);
  same_attr = λ d. at_conn d;
  same_links = refl;
}
  where
    at_conn : (d : Ptr) → ((set_conn c v n).conn d).attr ≡ (n.conn d).attr
    at_conn d = elim (Bool-cases (c == d)) [
      | inl same ↦
          ap (λ k. k.attr) (update_here n.conn c v d same)
          ∙ a
          ∙ ap (λ e. (n.conn e).attr) (eq_of_test _ _ same)
      | inr other ↦ ap (λ k. k.attr) (update_else n.conn c v d other)
    ]

set_queue-Same : (p : Ptr) (q : Queue Ptr) (n : Net) → Same n (set_queue p q n)
set_queue-Same p q n = record {
  same_max = refl;
  same_state = λ d. refl;
  same_type = λ d. refl;
  same_attr = λ d. refl;
  same_links = refl;
}

ensure_queue-Same :
    (sizeof_handle : ℕ) (fresh : Ptr) (setup : Bool) (len : ℤ) (c : Ptr) (n : Net)
    → Same n (ensure_queue sizeof_handle fresh setup len c n).1
unfolding ensure_queue with_queue
ensure_queue-Same sizeof_handle fresh setup len c n =
    by_queue ((n.conn c).rx_queue == null)
      (create sizeof_handle (λ size. fresh) setup null len sizeof_ptr)
  where
    by_queue :
        (absent : Bool) (made : Option (Queue Ptr))
        → Same n (if absent then with_queue fresh c n made else (true, n)).1
    by_queue true none = Same-refl n
    by_queue true (some q) = Same-trans (set_queue-Same fresh q n) (
        set_conn-Same c (record (n.conn c) { rx_queue = fresh }) (set_queue fresh q n) refl refl
          refl)
    by_queue false made = Same-refl n

ensure_egroup-Same : (egroup c : Ptr) (n : Net) → Same n (ensure_egroup egroup c n).1
unfolding ensure_egroup
ensure_egroup-Same egroup c n = by_egroup ((n.conn c).egroup == null)
  where
    by_egroup :
        (absent : Bool)
        → Same n
            (if◌then◌else◌ {A = Bool × Net} absent
              (not (egroup == null), set_conn c (record (n.conn c) { egroup = egroup }) n)
              (true, n)).1
    by_egroup true = set_conn-Same c (record (n.conn c) { egroup = egroup }) n refl refl refl
    by_egroup false = Same-refl n

-- What an allocation may do: nothing to the states, or to close a free connection, which it returns
-- with the default attributes.
pub record IsAllocation (n : Net) (c : Ptr) (m : Net) : Type 0 where
  pub max_kept : m.conn_max ≡ n.conn_max
  pub type_kept : (d : Ptr) → (m.conn d).type ≡ (n.conn d).type
  pub links_kept : m.links ≡ n.links
  pub attr_kept : (d : Ptr) → d ≢ c → (m.conn d).attr ≡ (n.conn d).attr
  pub at_most_one :
      ((c ≡ null) × ((d : Ptr) → (m.conn d).state ≡ (n.conn d).state))
      ⊎ (((n.conn c).state ≡ conn_free_state)
          × ((m.conn c).state ≡ conn_closed)
          × ((m.conn c).attr ≡ def_conn_attr)
          × ((d : Ptr) → d ≢ c → (m.conn d).state ≡ (n.conn d).state))

find_free_lem :
    (n : Net) (left i : ℕ)
    → i + left ≤ n.conn_max
    → (found : Option Ptr) × (find_free left i n ≡ ok found)
      × ((found ≡ none) ⊎ ((c : Ptr) × (found ≡ some c) × ((n.conn c).state ≡ conn_free_state)))
unfolding find_free
find_free_lem n zero i h = (none, refl, inl refl)
find_free_lem n (suc left) i h =
    let inside : leb n.conn_max i ≡ false = ground arith in
    elim (Bool-cases ((n.conn (slot n i)).state == conn_free_state)) [
      | inl free ↦
          (some (slot n i), rw (find_free, inside, free), inr (slot n i, refl, eq_of_test _ _ free))
      | inr busy ↦
          let (found, e, what) = find_free_lem n left (suc i) (omega arith) in
          (found, rw (find_free, inside, busy, e), what)
    ]

Same-IsAllocation : (n m : Net) → Same n m → IsAllocation n null m
Same-IsAllocation n m same = record {
  max_kept = same.same_max;
  type_kept = same.same_type;
  links_kept = same.same_links;
  attr_kept = λ d ne. same.same_attr d;
  at_most_one = inl (refl, same.same_state);
}

reset_conn-IsAllocation :
    (n m : Net) (c : Ptr)
    → Same n m
    → (n.conn c).state ≡ conn_free_state
    → IsAllocation n c (reset_conn c m)
unfolding reset_conn
reset_conn-IsAllocation n m c same free = record {
  max_kept = same.same_max;
  type_kept = λ d. ground (arith, same.same_type d);
  links_kept = same.same_links;
  attr_kept = λ d ne.
      ap (λ k. k.attr) (update_else m.conn c _ d (test_of_ne c d (λ e. ne (sym e))))
      ∙ same.same_attr d;
  at_most_one = inr (
    free,
    ground arith,
    ap (λ k. k.attr) (update_here m.conn c _ c (test_of_eq c c refl)),
    λ d ne. ground (arith, ne, same.same_state d),
  );
}

module _ (sizeof_handle : ℕ) (fresh : Ptr) (setup : Bool) (len : ℤ) (egroup : Ptr) (n : Net) where
  prepare-IsAllocation :
      (c : Ptr)
      → (n.conn c).state ≡ conn_free_state
      → (r : Ptr × Net) × (prepare sizeof_handle fresh setup len egroup n (some c) ≡ ok r)
        × IsAllocation n r.0 r.1
  unfolding prepare
  prepare-IsAllocation c free =
      let queued = ensure_queue sizeof_handle fresh setup len c n in
      let grouped = ensure_egroup egroup c queued.1 in
      let same = ensure_queue-Same sizeof_handle fresh setup len c n in
      let both = Same-trans same (ensure_egroup-Same egroup c queued.1) in
      (
        if queued.0
            then (if grouped.0 then (c, reset_conn c grouped.1) else (null, grouped.1))
            else (null, queued.1),
        refl,
        by_outcome queued.0 grouped.0 queued.1 grouped.1 same both,
      )
    where
      by_outcome :
          (has_queue has_egroup : Bool) (n1 n2 : Net)
          → Same n n1
          → Same n n2
          → IsAllocation n
              (if◌then◌else◌ {A = Ptr × Net} has_queue
                (if has_egroup then (c, reset_conn c n2) else (null, n2))
                (null, n1)).0
              (if◌then◌else◌ {A = Ptr × Net} has_queue
                (if has_egroup then (c, reset_conn c n2) else (null, n2))
                (null, n1)).1
      by_outcome true true n1 n2 s1 s2 = reset_conn-IsAllocation n n2 c s2 free
      by_outcome true false n1 n2 s1 s2 = Same-IsAllocation n n2 s2
      by_outcome false e n1 n2 s1 s2 = Same-IsAllocation n n1 s1

  -- `lsp_conn_alloc` in a pool that is large enough.
  pub conn_alloc-IsAllocation :
      default_max_connections ≤ n.conn_max
      → (r : Ptr × Net) × (conn_alloc sizeof_handle fresh setup len egroup n ≡ ok r)
        × IsAllocation n r.0 r.1
  unfolding conn_alloc prepare
  conn_alloc-IsAllocation large =
      let (found, e, what) = find_free_lem n default_max_connections 0 (omega arith) in
      elim what [
        | inl nothing ↦ ((null, n), rw (e, nothing), Same-IsAllocation n n (Same-refl n))
        | inr (c, this, free) ↦
            let (r, prepared, good) = prepare-IsAllocation c free in
            (r, rw (e, this) prepared, good)
      ]
