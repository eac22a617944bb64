-- ===== src/Port/Listen.antt =====
-- `lsp_listen`: in which order the sockets of a port stand.
use liblsp.Prelude.{
  ◌+◌, ◌*◌, size_mod, ℕ, ◌≤◌, ◌<◌, ◌≡◌, ◌≢◌, refl, ap, subst, Bool, true, false, inl, inr,
  Bool-cases, Option-cases, none, some, List, [], ◌∷◌, ◌++◌, arith, ◌==◌, ltb, leb, if◌then◌else◌,
  has, find, length, Ptr, null, Run, ok, eq_of_test, pos, ◌^◌,
}
use liblsp.LspList.{Links, valid}
use liblsp.LspList.Ring.{IsRing}
use liblsp.LspList.Insert.{add-front, insert_before_lem}
use liblsp.LspList.Delete.{is_empty-leb_one}
use liblsp.LspList.Walk.{visited, list_for-find}
use mathlib.Core.Path.{fun_ext}
use liblsp.Types.{aligned_size, err_none, packet_port_max, sizeof_ptr}
use liblsp.Queue.{Queue}
use liblsp.Queue.Ring.{Holds}
use liblsp.Queue.Create.{create-Holds}
use liblsp.Conn.{Net, set_conn, set_queue, conn_listen}
use liblsp.Port.{
  Ports, enlist, enlist_in, enlist_before, listen_with, listen, sockets, set_state, port_open,
}

-- `x` before the first element that passes the test, and nowhere where none does.
abbrev pub put_before {ℓ} : {A : Type ℓ} → (A → Bool) → A → List A → List A
put_before test x [] = []
put_before test x (y ∷ ys) = if test y then x ∷ y ∷ ys else y ∷ put_before test x ys

-- The order of the sockets of a port after one more, as the code has it.
abbrev pub listeners : (Ptr → Bool) → Ptr → List Ptr → List Ptr
listeners lower x [] = x ∷ []
listeners lower x (y ∷ []) = x ∷ y ∷ []
listeners lower x (y ∷ z ∷ l) = put_before lower x (y ∷ z ∷ l)

-- Where the test is passed first, and the list around it.
split_at :
    (test : Ptr → Bool) (x : Ptr) (xs : List Ptr) (p : Ptr)
    → find test xs ≡ some p
    → (us : List Ptr) × (vs : List Ptr) × (xs ≡ us ++ p ∷ vs)
      × (put_before test x xs ≡ us ++ x ∷ p ∷ vs)
split_at test x [] p h = cc
split_at test x (y ∷ ys) p h = elim (Bool-cases (test y)) [
  | inl hit ↦
      let e : y ≡ p = ground arith in ([], ys, ap (λ z. z ∷ ys) e, rw hit (ap (λ z. x ∷ z ∷ ys) e))
  | inr miss ↦
      let (us, vs, e, f) = split_at test x ys p (ground arith) in
      (y ∷ us, vs, ap (λ l. y ∷ l) e, rw miss (ap (λ l. y ∷ l) f))
]

put_before-none :
    (test : Ptr → Bool) (x : Ptr) (xs : List Ptr) → find test xs ≡ none → put_before test x xs ≡ xs
put_before-none test x [] h = refl
put_before-none test x (y ∷ ys) h = ground (arith, put_before-none test x ys)

-- What a socket's listening leaves: a list of the sockets `xs`; and the connections as they were.
abbrev pub Enlisted : Ptr → List Ptr → Net → Run Net → Type 0
Enlisted head xs n result = (m : Links) × (result ≡ ok (record n { links = m })) × IsRing m head xs

-- `sk` has a lower priority than `sock`.
abbrev pub lower : Net → Ptr → Ptr → Bool
lower n sock sk = ltb (n.conn sk).attr.priority (n.conn sock).attr.priority

module _ (n : Net) (head sock : Ptr) (v : valid n.links sock ≡ true) where
  enlist_front :
      (fuel : ℕ) (xs : List Ptr)
      → IsRing n.links head xs
      → length xs ≤ 1
      → has sock (head ∷ xs) ≡ false
      → Enlisted head (sock ∷ xs) n (enlist fuel sock head n)
  unfolding enlist enlist_in enlist_before
  enlist_front fuel xs r short out =
      let (m, e, ring, same) = add-front sock v xs r out in
      let few : leb (length xs) 1 ≡ true = ground arith in
      (m, rw (is_empty-leb_one xs r, few, e), ring)

  enlist_within :
      (fuel : ℕ) (xs : List Ptr)
      → IsRing n.links head xs
      → 1 < length xs
      → length xs ≤ fuel
      → has sock (head ∷ xs) ≡ false
      → visited xs ≡ xs
      → Enlisted head (put_before (lower n sock) sock xs) n (enlist fuel sock head n)
  unfolding enlist enlist_in enlist_before
  enlist_within fuel xs r long h out all =
      let many : leb (length xs) 1 ≡ false = ground arith in
      elim (Option-cases (find (lower n sock) xs)) [
        | inl e ↦ (
          n.links,
          rw (
            is_empty-leb_one xs r,
            many,
            list_for-find n.links head (lower n sock) fuel xs r h,
            all,
            e,
          ),
          rw (put_before-none (lower n sock) sock xs e) r,
        )
        | inr (p, e) ↦
            let (us, vs, split, put) = split_at (lower n sock) sock xs p e in
            let (m, made, ring, same) =
              insert_before_lem sock v us p vs (subst (IsRing n.links head) split r)
                (rw (← split) out) in
            (
              m,
              rw (
                is_empty-leb_one xs r,
                many,
                list_for-find n.links head (lower n sock) fuel xs r h,
                all,
                e,
                made,
              ),
              rw put ring,
            )
      ]

  enlist-listeners :
      (fuel : ℕ) (xs : List Ptr)
      → IsRing n.links head xs
      → length xs ≤ fuel
      → has sock (head ∷ xs) ≡ false
      → Enlisted head (listeners (lower n sock) sock xs) n (enlist fuel sock head n)
  enlist-listeners fuel [] r h out = enlist_front fuel [] r (omega arith) out
  enlist-listeners fuel (y ∷ []) r h out = enlist_front fuel (y ∷ []) r (omega arith) out
  enlist-listeners fuel (y ∷ z ∷ l) r h out =
      enlist_within fuel (y ∷ z ∷ l) r (omega arith) h out refl

-- The memory in which `lsp_listen` looks for the socket's place.
abbrev pub listening : Ptr → Ptr → Queue Ptr → Net → Net
listening sock fresh q n =
    set_queue fresh q (set_conn sock (record (n.conn sock) { type = conn_listen; peer = fresh }) n)

listening-lower :
    (sock fresh : Ptr) (q : Queue Ptr) (n : Net)
    → lower (listening sock fresh q n) sock ≡ lower n sock
listening-lower sock fresh q n = fun_ext (λ sk. elim (Bool-cases (sk == sock)) [
  | inl same ↦ let e : sk ≡ sock = eq_of_test sk sock same in ground (arith, e)
  | inr other ↦ ground arith
])

-- `lsp_listen` on a port that exists, by a socket that is not in the list of the port, with memory
-- for a queue of at least one child, whose block is smaller than 2^64, succeeds and opens the port. The socket comes directly before
-- the first socket of the port that has a lower priority; but where no socket or one stands there
-- it comes in front, and where two or more stand there and none has a lower priority, it is not
-- put into the list. Its queue of children is empty, and has the room that `backlog` asks for.
pub listen-listeners :
    (sizeof_handle fuel : ℕ) (fresh sock : Ptr) (backlog : ℕ) (n : Net) (ps : Ports) (xs : List Ptr)
    → fresh ≢ null
    → 0 < backlog
    → backlog < 2 ^ 31
    → aligned_size sizeof_handle + backlog * sizeof_ptr < size_mod
    → (n.conn sock).attr.lport ≤ packet_port_max
    → valid n.links sock ≡ true
    → IsRing n.links (sockets ps (n.conn sock).attr.lport) xs
    → length xs ≤ fuel
    → has sock (sockets ps (n.conn sock).attr.lport ∷ xs) ≡ false
    → (q : Queue Ptr) × (m : Links) × (listen sizeof_handle fuel fresh true sock (pos backlog) n ps
        ≡ ok (
          err_none,
          record (listening sock fresh q n) { links = m },
          set_state (n.conn sock).attr.lport port_open ps,
        ))
      × IsRing m (sockets ps (n.conn sock).attr.lport) (listeners (lower n sock) sock xs)
      × Holds q []
      × (q.queue_size ≡ backlog)
unfolding listen listen_with
listen-listeners sizeof_handle fuel fresh sock backlog n ps xs ne h0 h1 block exists v r h out =
    let head = sockets ps (n.conn sock).attr.lport in
    let (q, e, made, size, item, no_pusher, no_popper) =
      create-Holds sizeof_handle (λ size. fresh) null backlog sizeof_ptr h0 h1 (omega arith) block
        ne in
    let (m, f, ring) = enlist-listeners (listening sock fresh q n) head sock v fuel xs r h out in
    let there : (sock == null) ≡ false = ground arith in
    let fits : ltb packet_port_max (n.conn sock).attr.lport ≡ false = ground arith in
    (q, m, rw (there, fits, e, f), rw (← listening-lower sock fresh q n) ring, made, size)
