-- ===== src/Socket/Session/Answers.antt =====
-- Each call of a client and each sequence of them, against what the client is told.
use liblsp.Prelude.{
  ◌≢◌, ℕ, ◌≡◌, inl, inr, refl, ◌∙◌, Bool-cases, true, false, List, [], ◌∷◌, arith, ◌==◌, Ptr, Run,
  ok, has, ap, sym, null,
}
use liblsp.Types.{err_none, err_invalid}
use liblsp.Conn.{Net}
use liblsp.Conn.Lifetime.{
  IsHeld, drop_conn, has-drop_conn, Distinct-drop_conn, after_free, lacks-drop_conn,
}
use liblsp.Conn.Server.{conn_free-closed, mark_free}
use liblsp.Port.{Ports}
use liblsp.Socket.{closesocket}
use liblsp.Socket.Idle.{socket_call, bind_call, listen_call, accept_call, connect_call}
use liblsp.Socket.Unreachable.{listen_refused}
use liblsp.Socket.Session.{
  Action, call_action, close_action, Reply, socket_reply, int_reply, void_reply, not_held, Client,
  act, act_all, serve, Answers, AllAnswers, IsWild, AllWild, bind_answer, connect_answer, if_held,
  told,
}
use liblsp.Socket.Session.Owned.{
  IsOwned, Kept-IsOwned, held_not_null, socket-Made, bind-Owned, connect-Owned, accept-Owned,
}

-- A run from `n` and `held` that ends, and tells the client what `Answers` says.
abbrev pub Served : Ports → Action → Net → (held : List Ptr) → Run (Reply × Client) → Type 0
Served ps a n held result =
    (reply : Reply) × (m : Net) × (rest : List Ptr) × (result ≡ ok (reply, (m, ps, rest)))
    × Answers ps a held reply rest
    × IsOwned m rest
    × (m.links ≡ n.links)

drop_conn-lacks : (c : Ptr) (held : List Ptr) → has c held ≡ false → drop_conn c held ≡ held
drop_conn-lacks c [] h = refl
drop_conn-lacks c (d ∷ held) h =
    let (other, rest) : ((c == d) ≡ false) × (has c held ≡ false) =
      (ground (arith, h), ground (arith, h)) in
    rw other (ap (λ l. d ∷ l) (drop_conn-lacks c held rest))

-- A call on one socket, which gives `reply` to a client that holds it, and leaves it `after`.
held-Served :
    (sock : Ptr) (ps : Ports) (n : Net) {held : List Ptr} (reply : Reply) (after : List Ptr)
    (result : Run (Reply × Client))
    → IsOwned n held
    → (has sock held ≡ false → after ≡ held)
    → (has sock held ≡ true
        → (m : Net) × (result ≡ ok (reply, (m, ps, after))) × IsOwned m after × (m.links ≡ n.links))
    → (answer : Reply) × (m : Net) × (rest : List Ptr) × (if_held sock (n, ps, held) result
        ≡ ok (answer, (m, ps, rest)))
      × ((answer ≡ told sock held reply) × (rest ≡ after))
      × IsOwned m rest
      × (m.links ≡ n.links)
held-Served sock ps n {held} reply after result o unknown served =
    elim (Bool-cases (has sock held)) [
      | inl i ↦
          let (m, e, owned, links) = served i in
          (reply, m, after, rw (i, e) refl, (rw i refl, refl), owned, links)
      | inr i ↦ (not_held, n, held, rw i refl, (rw i refl, sym (unknown i)), o, refl)
    ]

module _ (sizeof_handle fuel : ℕ) (rc : Ptr → ℕ) (lock : ℕ → ℕ) (destroyed : ℕ) where
  closesocket-Owned :
      (sock : Ptr) {n : Net} {held : List Ptr}
      → IsOwned n held
      → has sock held ≡ true
      → (m : Net) × (closesocket rc lock destroyed 1 sock n ≡ ok m)
        × IsOwned m (drop_conn sock held)
        × (m.links ≡ n.links)
  unfolding closesocket
  closesocket-Owned sock {n} {held} o i =
      let freed =
        conn_free-closed rc lock destroyed 0 sock n (o.in_pool.in_use sock i)
          (o.in_pool.no_server sock) in
      let kept : IsHeld n (drop_conn sock held) = record {
        large = o.in_pool.large;
        no_server = o.in_pool.no_server;
        in_use = λ d j. o.in_pool.in_use d (has-drop_conn d sock held j).0;
        once = Distinct-drop_conn sock held o.in_pool.once;
      } in
      elim (Bool-cases (rc sock == err_none)) [
        | inl fine ↦ (
          mark_free sock n,
          rw (freed, fine) refl,
          record {
            in_pool = after_free sock o.in_pool;
            no_null = lacks-drop_conn _ sock held o.no_null;
            unbound = λ d j.
                let (old, apart) = has-drop_conn d sock held j in
                ground (arith, o.unbound d old, apart);
          },
          refl,
        )
        | inr bad ↦ (
          n,
          rw (freed, bad) refl,
          record {
            in_pool = kept;
            no_null = lacks-drop_conn _ sock held o.no_null;
            unbound = λ d j. o.unbound d (has-drop_conn d sock held j).0;
          },
          refl,
        )
      ]

  act-Served :
      (a : Action) {n : Net} (ps : Ports) {held : List Ptr}
      → ps.ports ≢ null
      → IsWild a
      → IsOwned n held
      → Served ps a n held (act sizeof_handle fuel rc lock destroyed a (n, ps, held))
  unfolding act serve Answers IsWild
  act-Served (call_action (socket_call fresh setup queuelen egroup domain type protocol)) {n} ps
        {held} made w o =
      let (c, m, e, new, owned, links) =
        socket-Made sizeof_handle fresh setup queuelen egroup domain type protocol o in
      (socket_reply c, m, _, rw e refl, (c, refl, new, refl), owned, links)
  act-Served (call_action (bind_call sock port)) {n} ps {held} made w o =
      held-Served sock ps n (int_reply (bind_answer ps port)) held _ o (λ i. refl)
        (λ i.
          let (m, e, k) = bind-Owned sock port ps made o i w in
          (m, rw e refl, Kept-IsOwned k o, k.same_links))
  act-Served (call_action (listen_call fresh setup sock backlog)) {n} ps {held} made w o =
      held-Served sock ps n (int_reply err_invalid) held _ o (λ i. refl)
        (λ i.
          let refused =
            listen_refused sizeof_handle fuel fresh setup sock backlog ps (held_not_null sock o i) n
              (o.unbound sock i) in
          (n, rw refused refl, o, refl))
  act-Served (call_action (accept_call l wait sock timeout)) {n} ps {held} made w o =
      held-Served sock ps n (socket_reply null) held _ o (λ i. refl)
        (λ i. (n, rw (accept-Owned l wait sock timeout o) refl, o, refl))
  act-Served (call_action (connect_call sock port addr)) {n} ps {held} made w o =
      held-Served sock ps n (int_reply (connect_answer port)) held _ o (λ i. refl)
        (λ i.
          let (m, e, k) = connect-Owned sock port addr n in
          (m, rw e refl, Kept-IsOwned k o, k.same_links))
  act-Served (close_action sock) {n} ps {held} made w o =
      held-Served sock ps n void_reply (drop_conn sock held) _ o (drop_conn-lacks sock held)
        (λ i. let (m, e, owned, links) = closesocket-Owned sock o i in (m, rw e refl, owned, links))

  -- A client that makes sockets, binds them, has them listen, accepts, connects and closes them, in any
  -- order, is told what the answers say and holds what they say, and each call ends without a fault: where it
  -- is not told of a new socket, the replies follow from its calls alone. `lsp_listen` reports
  -- LSP_ERR_INVALID each time and `lsp_accept` gives NULL; the ports and their lists stay as they are. At first
  -- `lsp_port_init` has made the ports,
  -- the pool is as large as `lsp_conn_alloc` takes it to be, has no server in it, and what the client
  -- holds is closed and bound to no port that exists; no `lsp_bind` names a port that exists.
  pub act_all-Answers :
      (actions : List Action) {n : Net} (ps : Ports) {held : List Ptr}
      → ps.ports ≢ null
      → AllWild actions
      → IsOwned n held
      → (replies : List Reply) × (m : Net) × (rest : List Ptr) × (act_all sizeof_handle fuel rc lock
            destroyed actions
            (n, ps, held)
          ≡ ok (replies, (m, ps, rest)))
        × AllAnswers ps actions held replies rest
        × IsOwned m rest
        × (m.links ≡ n.links)
  unfolding act_all AllAnswers AllWild
  act_all-Answers [] {n} ps {held} made w o = ([], n, held, refl, refl, o, refl)
  act_all-Answers (a ∷ actions) {n} ps {held} made w o =
      let (reply, m, next, e, answers, owned, links) = act-Served a ps made w.0 o in
      let (replies, k, rest, e1, answers1, owned1, links1) =
        act_all-Answers actions ps made w.1 owned in
      (reply ∷ replies, k, rest, rw (e, e1) refl, (next, answers, answers1), owned1, links1 ∙ links)
