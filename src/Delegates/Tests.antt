-- ===== src/Delegates/Tests.antt =====
-- delegates.go: a consumer with one connection, which reads a message and has it finished.
use go_nsq.Base.{ℕ, ◌≡◌, refl, Bool, ◌==◌, true, false, List, [], ◌∷◌, codes}
use go_nsq.Base.Bytes.{All}
use go_nsq.Base.Int.{pos}
use go_nsq.Command.{finish}
use go_nsq.Message.{Message, decode_message}
use go_nsq.Protocol.{frame_type_message}
use go_nsq.Consumer.Conns.{Addr}
use go_nsq.Consumer.Tests.{sample}
use go_nsq.Conn
use go_nsq.Conn.{
  Event, message, message_finished, on_resume, wrote, connected, MsgResponse, on_frame, on_response,
}
use go_nsq.Conn.Tests.{body}
use go_nsq.Delegates.{consumer_delegates}
use go_nsq.Delegates.Counting.{is_message, is_finished}
use go_nsq.Delegates.Traffic.{Traffic, silent}
use go_nsq.Delegates.Hearing.{over}

abbrev addr : Addr
addr = codes "a:1"

abbrev hello : Message
hello = record {
  id = codes "0123456789abcdef";
  body = codes "hi";
  timestamp = pos 5;
  attempts = 1;
  nsqd_address = [];
  auto_response_disabled = 0;
  responded = 0;
}

abbrev read : Conn.Conn
read = on_frame false frame_type_message body connected

abbrev fin : MsgResponse
fin = record { cmd = finish hello.id; success = true; backoff = false }

abbrev answered : Conn.Conn
answered = on_response false fin read

abbrev first_events : List Event
first_events = message hello ∷ []

abbrev last_events : List Event
last_events = wrote fin.cmd ∷ on_resume ∷ message_finished ∷ []

abbrev linked : Traffic
linked = record (silent sample) { conns = (addr, connected) ∷ [] }

abbrev received : Traffic
received = record {
  hub = consumer_delegates addr first_events linked.hub;
  conns = (addr, read) ∷ [];
}

abbrev finished : Traffic
finished = record {
  hub = consumer_delegates addr last_events received.hub;
  conns = (addr, answered) ∷ [];
}

abbrev is_first : Message → Bool
is_first m = m.attempts == 1

counts : (over is_message finished.conns ≡ 1) × (over is_finished finished.conns ≡ 1)
unfolding on_response on_frame decode_message
counts = (refl, refl)
