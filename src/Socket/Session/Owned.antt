-- ===== src/Socket/Session/Owned.antt =====
-- The sockets that a client holds, over each call: in use, not bound to a port that exists.
use liblsp.Prelude.{
  ℕ, ◌+◌, ◌<◌, ◌≡◌, ◌≢◌, inl, inr, refl, Bool, Bool-cases, true, false, not, ◌&&◌, List, ◌∷◌, arith,
  ◌==◌, ltb, if◌then◌else◌, Ptr, null, Run, ok, has, ℤ, subst, ◌∙◌, test_of_ne, eq_of_test,
  of_branches,
}
use liblsp.Types.{packet_port_max, port_any, af_lsp, sock_raw, sock_stream, lspproto_lsp}
use liblsp.Conn.{Net, ConnAttr, conn_alloc}
use liblsp.Conn.Pool.{IsAllocation, conn_alloc-IsAllocation}
use liblsp.Conn.Lifetime.{IsHeld, after_alloc}
use liblsp.Queue.{Queue, WaitResult}
use liblsp.Port.{Ports, bind, check_port, port_closed}
use liblsp.Socket.{socket, accept, connect, set_attr}
use liblsp.Socket.Session.{take, bind_answer, connect_answer}

pub record IsOwned (n : Net) (held : List Ptr) : Type 0 where
  pub in_pool : IsHeld n held
  pub no_null : has null held ≡ false
  pub unbound : (d : Ptr) → has d held ≡ true → packet_port_max < (n.conn d).attr.lport

-- A change that the invariant does not see.
pub record Kept (n m : Net) : Type 0 where
  pub same_max : m.conn_max ≡ n.conn_max
  pub same_state : (d : Ptr) → (m.conn d).state ≡ (n.conn d).state
  pub same_type : (d : Ptr) → (m.conn d).type ≡ (n.conn d).type
  pub same_links : m.links ≡ n.links
  pub still_unbound :
      (d : Ptr) → packet_port_max < (n.conn d).attr.lport → packet_port_max < (m.conn d).attr.lport

pub Kept-refl : (n : Net) → Kept n n
Kept-refl n = record {
  same_max = refl;
  same_state = λ d. refl;
  same_type = λ d. refl;
  same_links = refl;
  still_unbound = λ d h. h;
}

pub Kept-IsOwned : {n m : Net} {held : List Ptr} → Kept n m → IsOwned n held → IsOwned m held
Kept-IsOwned k o = record {
  in_pool = record {
    large = omega (arith, o.in_pool.large, k.same_max);
    no_server = λ d e. o.in_pool.no_server d (ground (arith, e, k.same_type d));
    in_use = λ d i. ground (arith, k.same_state d, o.in_pool.in_use d i);
    once = o.in_pool.once;
  };
  no_null = o.no_null;
  unbound = λ d i. k.still_unbound d (o.unbound d i);
}

pub held_not_null :
    {n : Net} {held : List Ptr} (c : Ptr) → IsOwned n held → has c held ≡ true → c ≢ null
held_not_null c o i e = ground (arith, o.no_null, i, e)

-- What `lsp_socket` gives a client that holds `held`.
abbrev pub Made : Net → (held : List Ptr) → Run (Ptr × Net) → Type 0
Made n held result =
    (c : Ptr) × (m : Net) × (result ≡ ok (c, m))
    × (has c held ≡ false)
    × IsOwned m (take c held)
    × (m.links ≡ n.links)

allocation-new :
    {n m : Net} {held : List Ptr} (c : Ptr)
    → IsOwned n held
    → IsAllocation n c m
    → has c held ≡ false
allocation-new {n} {m} {held} c o a = elim (Bool-cases (has c held)) [
  | inr new ↦ new
  | inl old ↦ elim a.at_most_one [
    | inl (failed, same) ↦ ground (arith, failed, o.no_null)
    | inr (free, closed, default, rest) ↦ absurd (omega (arith, free, o.in_pool.in_use c old))
  ]
]

has-take :
    (d c : Ptr) (held : List Ptr)
    → (d == c) ≡ false
    → has d (take c held) ≡ true
    → has d held ≡ true
has-take d c held other i = go (c == null) i
  where
    go : (none : Bool) → has d (if none then held else c ∷ held) ≡ true → has d held ≡ true
    go true i = i
    go false i = ground (arith, i, other)

allocation-Owned :
    {n m : Net} {held : List Ptr} (c : Ptr)
    → IsOwned n held
    → IsAllocation n c m
    → IsOwned m (take c held)
allocation-Owned {n} {m} {held} c o a = record {
  in_pool = after_alloc c o.in_pool a;
  no_null = no_null_in (c == null) refl;
  unbound = λ d i. elim (Bool-cases (d == c)) [
    | inr other ↦ ground (
      arith,
      a.attr_kept d (λ e. ground (arith, e, other)),
      o.unbound d (has-take d c held other i),
    )
    | inl same ↦ elim a.at_most_one [
      | inl (failed, kept) ↦
          let at_null = subst (λ x. has x (take c held) ≡ true) (eq_of_test _ _ same ∙ failed) i in
          absurd (ground (arith, at_null, no_null_in (c == null) refl))
      | inr (free, closed, default, rest) ↦ ground (arith, default, eq_of_test _ _ same)
    ]
  ];
}
  where
    no_null_in :
        (none : Bool) → (c == null) ≡ none → has null (if none then held else c ∷ held) ≡ false
    no_null_in true e = o.no_null
    no_null_in false e = ground (arith, o.no_null, e)

module _ (sizeof_handle : ℕ) (fresh : Ptr) (setup : Bool) (len : ℤ) (egroup : Ptr) where
  pub socket-Made :
      (domain type protocol : ℕ) {n : Net} {held : List Ptr}
      → IsOwned n held
      → Made n held (socket sizeof_handle fresh setup len egroup domain type protocol n)
  unfolding socket
  socket-Made domain type protocol {n} {held} o =
      let (r, e, a) =
        conn_alloc-IsAllocation sizeof_handle fresh setup len egroup n o.in_pool.large in
      let refused : Made n held (ok (null, n)) = (null, n, refl, o.no_null, o, refl) in
      let made : Made n held (conn_alloc sizeof_handle fresh setup len egroup n) =
        (r.0, r.1, e, allocation-new r.0 o a, allocation-Owned r.0 o a, a.links_kept) in
      of_branches (Made n held) (not (domain == af_lsp)) refused (
        of_branches (Made n held) (not (type == sock_raw) && not (type == sock_stream)) refused
          (of_branches (Made n held) (not (protocol == lspproto_lsp)) refused made))

set_attr-Kept :
    (sock : Ptr) (a : ConnAttr) (n : Net)
    → (packet_port_max < (n.conn sock).attr.lport → packet_port_max < a.lport)
    → Kept n (set_attr sock a n)
set_attr-Kept sock a n h = record {
  same_max = refl;
  same_state = λ d. ground arith;
  same_type = λ d. ground arith;
  same_links = refl;
  still_unbound = λ d p. elim (Bool-cases (sock == d)) [
    | inl same ↦ ground (arith, same, h, p, eq_of_test _ _ same)
    | inr other ↦ ground (arith, p, other)
  ];
}

check_port_wild :
    (sock : Ptr) (ps : Ports) (n : Net)
    → ps.ports ≢ null
    → (n.conn sock).attr.lport ≡ packet_port_max + 1
    → check_port sock n ps ≡ ok (bind_answer ps port_any, n)
unfolding check_port
check_port_wild sock ps n made e =
    elim (Bool-cases (ps.state (packet_port_max + 1) == port_closed)) [
      | inl closed ↦ rw (test_of_ne ps.ports null made, e, closed) refl
      | inr open_state ↦ rw (test_of_ne ps.ports null made, e, open_state) refl
    ]

pub bind-Owned :
    (sock : Ptr) (port : ℕ) {n : Net} (ps : Ports) {held : List Ptr}
    → ps.ports ≢ null
    → IsOwned n held
    → has sock held ≡ true
    → packet_port_max < port
    → (m : Net) × (bind sock port n ps ≡ ok (bind_answer ps port, m)) × Kept n m
unfolding bind check_port
bind-Owned sock port {n} ps made o i wild =
    let past : ltb packet_port_max port ≡ true = ground arith in
    elim (Bool-cases (port == port_any)) [
      | inl any ↦ (
        set_attr sock (record (n.conn sock).attr { lport = packet_port_max + 1 }) n,
        rw (test_of_ne sock null (held_not_null sock o i), any)
            (check_port_wild sock ps _ made (ground arith)),
        set_attr-Kept sock _ n (λ p. omega arith),
      )
      | inr named ↦
          (n, rw (test_of_ne sock null (held_not_null sock o i), named, past) refl, Kept-refl n)
    ]

pub connect-Owned :
    (sock : Ptr) (port addr : ℕ) (n : Net)
    → (m : Net) × (connect sock port addr n ≡ (connect_answer port, m)) × Kept n m
unfolding connect
connect-Owned sock port addr n = elim (Bool-cases (port == port_any)) [
  | inl any ↦ (
    set_attr sock (record (n.conn sock).attr { rport = packet_port_max + 1; raddr = addr }) n,
    rw any refl,
    set_attr-Kept sock _ n (λ p. p),
  )
  | inr named ↦ elim (Bool-cases (ltb packet_port_max port)) [
    | inl past ↦ (n, rw (named, past) refl, Kept-refl n)
    | inr exists ↦ (
      set_attr sock (record (n.conn sock).attr { raddr = addr }) n,
      rw (named, exists) refl,
      set_attr-Kept sock _ n (λ p. p),
    )
  ]
]

pub accept-Owned :
    {n : Net} {held : List Ptr} (l : ℕ) (wait : Queue Ptr → WaitResult × Queue Ptr) (sock : Ptr)
    (timeout : ℕ)
    → IsOwned n held
    → accept l wait sock timeout n ≡ ok (null, n)
unfolding accept
accept-Owned l wait sock timeout o = rw (test_of_ne _ _ (o.in_pool.no_server sock)) refl
