-- ===== src/Whole/Tests.antt =====
-- consumer.go: a consumer that dials one nsqd, stops, and loses it.
use go_nsq.Base.{ℕ, ◌+◌, inr, true, false, [], ◌∷◌, Option, none, some, codes}
use go_nsq.Base.Int.{pos}
use go_nsq.Consumer.{Consumer}
use go_nsq.Consumer.Conns.{Conn, find}
use go_nsq.Consumer.Tests.{sample}
use go_nsq.Lookup
use go_nsq.Lookup.{new_lookup}
use go_nsq.Lookup.Steps
use go_nsq.Handlers
use go_nsq.Handlers.{new_running}
use go_nsq.Whole.{Whole, join_conn, on_conn_close, stop}
use go_nsq.Whole.Agreement.{new_whole}

abbrev bare : Consumer
bare = record sample { connections = []; total_rdy_count = pos 0 }

abbrev conn : Conn
conn = record {
  addr = codes "a:1";
  messages_in_flight = pos 0;
  max_rdy_count = pos 2500;
  rdy_count = pos 0;
  last_rdy_timestamp = pos 0;
  last_msg_timestamp = pos 0;
  close_flag = false;
  written = [];
}

abbrev unconnected : Whole
unconnected = record (new_whole bare) { book = record new_lookup { running_handlers = 1 } }

abbrev handling : Whole
handling = record (new_whole bare) {
  book = record new_lookup { running_handlers = 1 };
  running = record new_running { connected_flag = true };
}

abbrev dialling : Whole
dialling = record handling {
  book = record new_lookup {
    running_handlers = 1;
    connected_flag = true;
    pending_connections = codes "a:1" ∷ [];
    nsqd_tcp_addrs = codes "a:1" ∷ [];
  };
}

abbrev joined : Whole
joined = join_conn conn dialling

abbrev stored_or : Option Conn → Conn
stored_or none = conn
stored_or (some c) = c

abbrev last_conn : Conn
last_conn = stored_or (find (codes "a:1") joined.account.connections)

abbrev lost : Whole
lost = on_conn_close last_conn (stop joined)
