-- ===== src/Conn/Server.antt =====
-- src/lsp_conn.c: `lsp_conn_free` of a closed connection, and of a server with children.
use liblsp.Prelude.{
  ℕ, zero, suc, ◌<◌, ◌≡◌, ◌≢◌, refl, subst, ◌∙◌, Bool-cases, true, false, inl, inr, Option, none,
  some, List, [], ◌∷◌, arith, ◌==◌, if◌then◌else◌, Ptr, ok, and_then, has, length, Distinct,
  test_of_eq, test_of_ne,
}
use liblsp.Types.{err_none, err_queue_empty}
use liblsp.Queue.{Queue, pop, dequeue, destroy}
use liblsp.Queue.Ring.{Holds}
use liblsp.Queue.Fifo.{pop_item, pop_empty}
use liblsp.Conn.{Net, set_conn, set_queue, release, conn_free_state, conn_closed, conn_server}
use liblsp.Conn.Close.{conn_free, free_children, no_wait}

abbrev pub mark_free : Ptr → Net → Net
mark_free c n = set_conn c (record (n.conn c) { state = conn_free_state }) n

module _ (rc : Ptr → ℕ) (lock : ℕ → ℕ) (destroyed : ℕ) where
  pub conn_free-closed :
      (fuel : ℕ) (c : Ptr) (n : Net)
      → (n.conn c).state ≡ conn_closed
      → (n.conn c).type ≢ conn_server
      → conn_free rc lock destroyed (suc fuel) c n
        ≡ ok (rc c, if rc c == err_none then mark_free c n else n)
  unfolding conn_free
  conn_free-closed fuel c n closed client = elim (Bool-cases (rc c == err_none)) [
    | inl fine ↦ rw (conn_free, test_of_eq _ _ closed, and_then, fine, test_of_ne _ _ client)
    | inr bad ↦ rw (conn_free, test_of_eq _ _ closed, and_then, bad)
  ]

-- No thread waits for room or for an item.
abbrev pub Calm {ℓ} : {A : Type ℓ} → Queue A → Type 0
Calm q = (q.waiting_full ≡ 0) × (q.waiting_empty ≡ 0)

pop-Calm : (q : Queue Ptr) → Calm q → Calm (pop err_none no_wait q 0).2
unfolding pop dequeue
pop-Calm q h = (ground (arith, h.0), ground (arith, h.1))

destroy-Calm : (q : Queue Ptr) → Calm q → (destroy q).1 ≡ true
unfolding destroy
destroy-Calm q h = rw (h.0, h.1)

-- What the loop over the children `xs` of `c` leaves of `n`.
pub record Released (c handle : Ptr) (xs : List Ptr) (n m : Net) : Type 0 where
  pub children_free : (d : Ptr) → has d xs ≡ true → (m.conn d).state ≡ conn_free_state
  pub others : (d : Ptr) → has d xs ≡ false → m.conn d ≡ n.conn d
  pub queue_freed : m.freed ≡ handle ∷ n.freed

-- A turn of the loop over the children of `c` with the queue at `handle`: its end, and a child.
abbrev Ends : (destroyed : ℕ) → (c : Ptr) → ℕ → Option Ptr → Net → (handle : Ptr) → Type 0
Ends destroyed c fuel sock n handle =
    pop err_none no_wait (n.queues handle) 0 ≡ (err_queue_empty, none, n.queues handle)
    → (destroy (n.queues handle)).1 ≡ true
    → free_children (λ d. err_none) (λ i. err_none) destroyed (suc fuel) c sock n
      ≡ ok (release handle n)

abbrev TakesChild : (destroyed : ℕ) → (c x : Ptr) → ℕ → Option Ptr → Net → (handle : Ptr) → Type 0
TakesChild destroyed c x fuel sock n handle =
    let n1 = set_queue handle (pop err_none no_wait (n.queues handle) 0).2 n in
    (pop err_none no_wait (n.queues handle) 0).0 ≡ err_none
    → (pop err_none no_wait (n.queues handle) 0).1 ≡ some x
    → (n1.conn x).state ≡ conn_closed
    → (n1.conn x).type ≢ conn_server
    → free_children (λ d. err_none) (λ i. err_none) destroyed (suc (suc fuel)) c sock n
      ≡ free_children (λ d. err_none) (λ i. err_none) destroyed (suc fuel) c (some x)
          (mark_free x n1)

free_children-Ends :
    (destroyed : ℕ) (c : Ptr) (fuel : ℕ) (sock : Option Ptr) (n : Net)
    → Ends destroyed c fuel sock n (n.conn c).peer
unfolding free_children
free_children-Ends destroyed c fuel sock n nothing calm = rw (free_children, nothing, nothing, calm)

free_children-TakesChild :
    (destroyed : ℕ) (c x : Ptr) (fuel : ℕ) (sock : Option Ptr) (n : Net)
    → TakesChild destroyed c x fuel sock n (n.conn c).peer
unfolding free_children
free_children-TakesChild destroyed c x fuel sock n fine item closed client = rw (
  free_children,
  fine,
  item,
  conn_free-closed (λ d. err_none) (λ i. err_none) destroyed fuel x
      (set_queue (n.conn c).peer (pop err_none no_wait (n.queues (n.conn c).peer) 0).2 n) closed
      client,
)

module _ (destroyed : ℕ) (c handle : Ptr) where
  children-Released :
      (xs : List Ptr) (fuel : ℕ) (sock : Option Ptr) (n : Net)
      → length xs < fuel
      → (n.conn c).peer ≡ handle
      → Holds (n.queues handle) xs
      → Calm (n.queues handle)
      → Distinct (c ∷ xs)
      → ((d : Ptr)
          → has d xs ≡ true
          → ((n.conn d).state ≡ conn_closed) × ((n.conn d).type ≢ conn_server))
      → (m : Net) × (free_children (λ d. err_none) (λ i. err_none) destroyed fuel c sock n ≡ ok m)
        × Released c handle xs n m
  unfolding free_children
  children-Released xs zero sock n enough at held calm apart good = absurd (omega arith)
  children-Released [] (suc fuel) sock n enough at held calm apart good = (
    release handle n,
    subst (Ends destroyed c fuel sock n) at (free_children-Ends destroyed c fuel sock n)
        (pop_empty no_wait held) (destroy-Calm (n.queues handle) calm),
    record {
      children_free = λ d i. absurd (ground arith);
      others = λ d i. refl;
      queue_freed = refl;
    },
  )
  children-Released (x ∷ xs) (suc zero) sock n enough at held calm apart good = absurd (omega arith)
  children-Released (x ∷ xs) (suc (suc fuel)) sock n enough at held calm apart good =
      let (fine, item, left) = pop_item no_wait 0 x held in
      let (closed, client) = good x (ground arith) in
      let n2 = mark_free x (set_queue handle (pop err_none no_wait (n.queues handle) 0).2 n) in
      let same : (n2.queues handle) ≡ (pop err_none no_wait (n.queues handle) 0).2 = ground arith in
      let (m, e, done) =
        children-Released xs (suc fuel) (some x) n2 (omega arith) (ground (arith, at, apart))
          (rw same left) (rw same (pop-Calm (n.queues handle) calm))
          (ground (arith, apart), apart.1.1) (λ d i. ground (arith, good d, apart)) in
      (
        m,
        subst (TakesChild destroyed c x fuel sock n) at
              (free_children-TakesChild destroyed c x fuel sock n) fine item closed client
            ∙ e,
        record {
          children_free = λ d i. elim (Bool-cases (has d xs)) [
            | inl later ↦ done.children_free d later
            | inr not_later ↦ ground (arith, done.others d not_later, i, not_later)
          ];
          others = λ d i. ground (arith, done.others d, i);
          queue_freed = done.queue_freed;
        },
      )

  -- Where the locks are taken, and the variable that `lsp_conn_free` reads without a value holds
  -- LSP_ERR_NONE: a closed server with the children `xs` in its queue, closed clients that are each there once,
  -- and with no thread waiting there, is freed with every child and with the queue; no other connection
  -- changes. Enough fuel is two more than the children.
  pub conn_free-Released :
      (xs : List Ptr) (fuel : ℕ) (n : Net)
      → length xs < fuel
      → (n.conn c).state ≡ conn_closed
      → (n.conn c).type ≡ conn_server
      → (n.conn c).peer ≡ handle
      → Holds (n.queues handle) xs
      → Calm (n.queues handle)
      → Distinct (c ∷ xs)
      → ((d : Ptr)
          → has d xs ≡ true
          → ((n.conn d).state ≡ conn_closed) × ((n.conn d).type ≢ conn_server))
      → (m : Net) × (conn_free (λ d. err_none) (λ i. err_none) destroyed (suc fuel) c n
          ≡ ok (err_none, mark_free c m))
        × Released c handle xs n m
  unfolding conn_free
  conn_free-Released xs fuel n enough closed server at held calm apart good =
      let (m, e, done) = children-Released xs fuel none n enough at held calm apart good in
      (m, rw (conn_free, test_of_eq _ _ closed, and_then, test_of_eq _ _ server, e), done)
