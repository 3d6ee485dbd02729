-- ===== src/Delegates.antt =====
-- delegates.go, consumer.go: what a connection calls on its consumer or its producer, and the
-- counters of Stats.
pub mod Counting
pub mod Hearing
pub mod Reporting
pub mod Traffic
pub mod Tests
use go_nsq.Base.{
  ℕ, ◌+◌, ◌%◌, ◌^◌, true, false, List, [], ◌∷◌, ◌++◌, Option, some, codes, if◌then◌else◌, length,
}
use go_nsq.Base.Bytes.{bytes_eq}
use go_nsq.Message.{Message}
use go_nsq.Protocol.{frame_type_response, frame_type_error}
use go_nsq.Conn.{
  Event, heartbeat, io_error, message_finished, message_requeued, on_backoff, on_continue,
  on_resume, response, error, message, wrote,
}
use go_nsq.Consumer.{Consumer, backoff_flag, continue_flag, resume_flag, close_conn}
use go_nsq.Consumer.Conns.{Addr}
use go_nsq.Consumer.Backoff.{start_stop_continue_backoff}
use go_nsq.Consumer.Joining.{stored_close}
use go_nsq.Producer.{Producer, absent, pop_transaction, on_conn_io_error}

-- The counters are uint64. `incoming` is the history of what was sent to incomingMessages.
pub record Hub : Type 0 where
  pub consumer : Consumer
  pub messages_received : ℕ
  pub messages_finished : ℕ
  pub messages_requeued : ℕ
  pub incoming : List Message

pub record ConsumerStats : Type 0 where
  pub received : ℕ
  pub finished : ℕ
  pub requeued : ℕ
  pub connections : ℕ

unfoldable pub stats : Hub → ConsumerStats
stats h = record {
  received = h.messages_received;
  finished = h.messages_finished;
  requeued = h.messages_requeued;
  connections = length h.consumer.connections;
}

unfoldable pub on_conn_message : Message → Hub → Hub
on_conn_message m h = record h {
  messages_received = (h.messages_received + 1) % 2 ^ 64;
  incoming = h.incoming ++ (m ∷ []);
}

unfoldable pub on_conn_message_finished : Hub → Hub
on_conn_message_finished h = record h { messages_finished = (h.messages_finished + 1) % 2 ^ 64 }

unfoldable pub on_conn_message_requeued : Hub → Hub
on_conn_message_requeued h = record h { messages_requeued = (h.messages_requeued + 1) % 2 ^ 64 }

unfoldable pub on_conn_response : Addr → List ℕ → Consumer → Consumer
on_conn_response a body r = if bytes_eq body (codes "CLOSE_WAIT") then close_conn a r else r

-- consumerConnDelegate; a write is no call of the delegate. The connection that calls is the one that
-- the consumer has stored under its address, if it has one.
unfoldable pub consumer_delegate : Addr → Event → Hub → Hub
unfolding on_conn_message on_conn_message_finished on_conn_message_requeued on_conn_response
consumer_delegate a (response body) h = record h { consumer = on_conn_response a body h.consumer }
consumer_delegate a (error body) h = h
consumer_delegate a (message m) h = on_conn_message m h
consumer_delegate a message_finished h = on_conn_message_finished h
consumer_delegate a message_requeued h = on_conn_message_requeued h
consumer_delegate a on_backoff h = record h {
  consumer = start_stop_continue_backoff backoff_flag h.consumer;
}
consumer_delegate a on_continue h = record h {
  consumer = start_stop_continue_backoff continue_flag h.consumer;
}
consumer_delegate a on_resume h = record h {
  consumer = start_stop_continue_backoff resume_flag h.consumer;
}
consumer_delegate a io_error h = record h { consumer = close_conn a h.consumer }
consumer_delegate a heartbeat h = h
consumer_delegate a Event.on_close h = record h { consumer = stored_close a h.consumer }
consumer_delegate a (wrote cmd) h = h

-- producerConnDelegate. A response goes through a channel to the router, which pops a transaction;
-- there is none when it was not asked for.
unfoldable pub producer_delegate : Event → Producer → Option Producer
producer_delegate (response body) p = pop_transaction frame_type_response body p
producer_delegate (error body) p = pop_transaction frame_type_error body p
producer_delegate (message m) p = some p
producer_delegate message_finished p = some p
producer_delegate message_requeued p = some p
producer_delegate on_backoff p = some p
producer_delegate on_continue p = some p
producer_delegate on_resume p = some p
producer_delegate io_error p = some (on_conn_io_error p)
producer_delegate heartbeat p = some p
producer_delegate Event.on_close p = some (record p { link = absent; close_closed = true })
producer_delegate (wrote cmd) p = some p

-- The calls of one step of a connection, the last one first.
unfoldable pub consumer_delegates : Addr → List Event → Hub → Hub
unfolding consumer_delegate
consumer_delegates a [] h = h
consumer_delegates a (e ∷ es) h = consumer_delegate a e (consumer_delegates a es h)
