-- ===== src/Conn/Tests.antt =====
-- The theorems about connections, on a small pool.
use liblsp.Prelude.{
  List, none, Ptr, ℕ, ◌≡◌, ◌≢◌, refl, true, [], ◌∷◌, List, none, ◌==◌, if◌then◌else◌, Ptr, null, ok,
  arith, has,
}
use liblsp.Types.{err_none, default_max_connections}
use liblsp.LspList.Sample.{pair_links}
use liblsp.Queue.{Queue}
use liblsp.Queue.Ring.{Holds}
use liblsp.Conn.{
  Conn, Net, def_conn_attr, conn_init, conn_free_state, conn_closed, conn_listen, conn_client,
  conn_server,
}
use Prim.Native.Nat.{min}
use liblsp.Conf.{Conf}
use liblsp.Conn.Start.{AllGiven, Hands, counted, take_all}
use liblsp.Conn.Start.Counted.{pool-counted}
use liblsp.Conn.Close.{conn_free}
use liblsp.Conn.Server.{Released, mark_free, conn_free-Released}

abbrev conn_in : ℕ → Conn
conn_in s = record {
  type = conn_client;
  state = s;
  attr = def_conn_attr;
  egroup = null;
  peer = null;
  rcv_timeout = 0;
  snd_timeout = 0;
  s_opt = 0;
  timestamp = 0;
  rx_queue = 700;
}

-- A queue for four, with two items.
abbrev queue_of_two : Queue Ptr
queue_of_two = record {
  length = 2;
  head = 1;
  tail = 3;
  waiting_full = 0;
  waiting_empty = 0;
  queue_size = 4;
  itemsize = 8;
  slots = 0 ∷ 51 ∷ 52 ∷ 0 ∷ [];
}

-- A pool of two connections at 1000, of which the first is in use.
abbrev half_used : Net
half_used = record {
  conn_pool = 1000;
  conn_max = 2;
  conn = λ c. if c == 1000 then conn_in conn_closed else conn_in conn_free_state;
  links = pair_links;
  queues = λ p. queue_of_two;
  freed = [];
}

two_items : Holds queue_of_two (51 ∷ 52 ∷ [])
two_items = record {
  valid = record {
    some_room = omega arith;
    small = omega arith;
    storage = omega arith;
    head_in = omega arith;
    length_in = omega arith;
    tail_at = refl;
  };
  count = refl;
  items = (refl, (refl, tt));
}

-- Before the start, and a configuration with two connections.
abbrev not_started : Net
not_started = record half_used { conn_pool = null; conn_max = 0 }

abbrev for_two : Conf
for_two = record {
  addr = 7;
  hostname = null;
  machinename = null;
  rev = null;
  conn_max = 2;
  conn_queuelen = 4;
}

abbrev three_times : List (Ptr × Ptr)
three_times = (800, 900) ∷ (801, 901) ∷ (802, 902) ∷ []

three_times-AllGiven : AllGiven three_times
unfolding AllGiven
three_times-AllGiven =
    ((omega arith, omega arith), ((omega arith, omega arith), ((omega arith, omega arith), tt)))

-- Two of them, and the one that reads outside.
pool-counted_example :
    (m : Net) × (conn_init (λ size. 4096) for_two not_started ≡ ok (none, m))
    × (m.freed ≡ m.conn_pool ∷ [])
    × Hands
        (min 3 default_max_connections)
        (counted m.conn_pool 2 0 3)
        (take_all 200 4 three_times m)
pool-counted_example =
    pool-counted 200 (λ size. 4096) for_two not_started three_times (omega arith) (omega arith)
      (omega arith) (omega arith) refl three_times-AllGiven

-- The connection at 2 listens, in the list of nodes 2 and 3.
abbrev listening : Net
listening = record half_used { conn = λ c. conn_in conn_listen }

-- A closed server at 1000, with the children 51 and 52.
abbrev with_children : Net
with_children = record half_used {
  conn = λ c.
      if c == 1000
      then record (conn_in conn_closed) { type = conn_server; peer = 700 }
      else conn_in conn_closed;
}

children_closed :
    (d : Ptr)
    → has d (51 ∷ 52 ∷ []) ≡ true
    → ((with_children.conn d).state ≡ conn_closed) × ((with_children.conn d).type ≢ conn_server)
children_closed d h = (ground arith, λ e. ground (arith, e, h))

conn_free-Released_example :
    (m : Net) × (conn_free (λ d. err_none) (λ i. err_none) 0 4 1000 with_children
      ≡ ok (err_none, mark_free 1000 m))
    × Released 1000 700 (51 ∷ 52 ∷ []) with_children m
conn_free-Released_example =
    conn_free-Released 0 1000 700 (51 ∷ 52 ∷ []) 3 with_children (omega arith) refl refl refl
      two_items (refl, refl) (refl, (refl, (refl, tt))) children_closed
