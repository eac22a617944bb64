-- ===== src/Conn/Sample.antt =====
-- A small pool of connections and a port with two listeners, on which the tests run the calls.
use liblsp.Prelude.{refl, true, [], ◌∷◌, ◌==◌, if◌then◌else◌, Ptr, null}
use liblsp.LspList.{Links}
use liblsp.LspList.Ring.{IsRing}
use liblsp.Queue.{Queue}
use liblsp.Conn.{Conn, ConnAttr, Net, def_conn_attr, conn_closed, conn_client}

abbrev pub idle_conn : ConnAttr → Conn
idle_conn a = record {
  type = conn_client;
  state = conn_closed;
  attr = a;
  egroup = null;
  peer = null;
  rcv_timeout = 0;
  snd_timeout = 0;
  s_opt = 0;
  timestamp = 0;
  rx_queue = 700;
}

abbrev pub no_queue : Queue Ptr
no_queue = record {
  length = 0;
  head = 0;
  tail = 0;
  waiting_full = 0;
  waiting_empty = 0;
  queue_size = 4;
  itemsize = 8;
  slots = 0 ∷ 0 ∷ 0 ∷ 0 ∷ [];
}

-- The list of a port at 100, with the nodes 2 and 3.
abbrev pub port_links : Links
port_links = record {
  mapped = λ p. true;
  next = λ p. if p == 100 then 2 else if p == 2 then 3 else 100;
  prev = λ p. if p == 100 then 3 else if p == 2 then 100 else 2;
}

pub port-IsRing : IsRing port_links 100 (2 ∷ 3 ∷ [])
port-IsRing = record {
  mapped = (refl, (refl, (refl, tt)));
  forth = (refl, (refl, (refl, tt)));
  back = (refl, (refl, refl));
  distinct = (refl, (refl, (refl, tt)));
}

-- Connections with priority 4, of which all but connection 5 are bound to port 0.
abbrev pub port_net : Net
port_net = record {
  conn_pool = 1000;
  conn_max = 2;
  conn = λ c. idle_conn (if c == 5 then def_conn_attr else record def_conn_attr { lport = 0 });
  links = port_links;
  queues = λ p. no_queue;
  freed = [];
}
