-- ===== src/Delegates/Traffic.antt =====
-- conn.go, consumer.go, delegates.go: a consumer and its connections, each going its own way.
use go_nsq.Base.{◌≡◌, List, [], ◌∷◌, ◌++◌}
use go_nsq.Consumer.{Consumer}
use go_nsq.Consumer.Conns.{Addr}
use go_nsq.Consumer.History
use go_nsq.Conn
use go_nsq.Conn.{Event, connected}
use go_nsq.Delegates.{Hub, consumer_delegates}

-- A connection that was made stays in the list after its end.
pub record Traffic : Type 0 where
  pub hub : Hub
  pub conns : List (Addr × Conn.Conn)

-- A connection takes a step, and the consumer hears what it calls: `es` are the events of the step.
-- Or the consumer has an event of its own, as its account needs it. A connection that Connect made enters the list.
pub data Step : Traffic → Traffic → Type 0 where
  moves :
      (n : Traffic) (xs ys : List (Addr × Conn.Conn)) (a : Addr) (c d : Conn.Conn) (es : List Event)
      → n.conns ≡ xs ++ ((a, c) ∷ ys)
      → Conn.Step c d
      → d.events ≡ es ++ c.events
      → Step n (record { hub = consumer_delegates a es n.hub; conns = xs ++ ((a, d) ∷ ys) })
  connects : (n : Traffic) (a : Addr) → Step n (record n { conns = (a, connected) ∷ n.conns })
  consumer_moves :
      (n : Traffic) (r : Consumer)
      → (event : History.Step n.hub.consumer r) → History.IsTame event
      → Step n (record n { hub = record n.hub { consumer = r } })

pub data Reach (s : Traffic) : Traffic → Type 0 where
  start : Reach s s
  step : {p q : Traffic} → Reach s p → Step p q → Reach s q

-- A consumer that has no connection yet.
abbrev pub silent : Consumer → Traffic
silent r = record {
  hub = record {
    consumer = r;
    messages_received = 0;
    messages_finished = 0;
    messages_requeued = 0;
    incoming = [];
  };
  conns = [];
}
