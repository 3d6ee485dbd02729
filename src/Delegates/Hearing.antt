-- ===== src/Delegates/Hearing.antt =====
-- consumer.go, delegates.go: what the calls of a connection do to the counters and to the account.
use go_nsq.Base.{
  ℕ, ◌+◌, ◌%◌, ◌^◌, ◌≡◌, inl, inr, Bool, List, [], ◌∷◌, arith, ◌++◌, Bool-cases, Option-cases,
  codes,
}
use go_nsq.Base.Bytes.{bytes_eq, bytes_eq_iff}
use go_nsq.Consumer.{Consumer, backoff_flag, continue_flag, resume_flag}
use go_nsq.Consumer.Conns.{Addr, find, find-addr}
use go_nsq.Consumer.Joining.{stored_close}
use go_nsq.Message.{Message}
use go_nsq.Consumer.History
use go_nsq.Consumer.History.{IsHeld, Step-IsHeld}
use go_nsq.Conn
use go_nsq.Conn.{
  Event, heartbeat, io_error, message_finished, message_requeued, on_backoff, on_continue,
  on_resume, response, error, message, wrote, idle, connected,
}
use go_nsq.Delegates.{Hub, on_conn_response, consumer_delegate, consumer_delegates}
use go_nsq.Delegates.Counting.{is_message, is_message_that, is_finished, is_requeued, one_if, count}

-- The events of a kind, and the messages in flight, of all connections.
abbrev pub over : (Event → Bool) → List (Addr × Conn.Conn) → ℕ
over pick [] = 0
over pick ((a, c) ∷ cs) = count pick c.events + over pick cs

abbrev pub in_flight : List (Addr × Conn.Conn) → ℕ
in_flight [] = 0
in_flight ((a, c) ∷ cs) = c.messages_in_flight + in_flight cs

abbrev pub IsIdle : Addr × Conn.Conn → Type 0
IsIdle x = x.1.cleanup ≡ idle

-- How many messages of a kind there are.
abbrev pub tally : (Message → Bool) → List Message → ℕ
tally pick [] = 0
tally pick (m ∷ ms) = one_if (pick m) + tally pick ms

tally-append :
    (pick : Message → Bool) (xs ys : List Message)
    → tally pick (xs ++ ys) ≡ tally pick xs + tally pick ys
tally-append pick [] ys = omega arith
tally-append pick (m ∷ xs) ys = omega (arith, tally-append pick xs ys)

-- The counters say what the events say, and so does the channel's history for each kind of message.
pub record IsReported (x y z : ℕ) (ks : (Message → Bool) → ℕ) (h : Hub) : Type 0 where
  pub received : h.messages_received ≡ x % 2 ^ 64
  pub finished : h.messages_finished ≡ y % 2 ^ 64
  pub requeued : h.messages_requeued ≡ z % 2 ^ 64
  pub sent : (pick : Message → Bool) → tally pick h.incoming ≡ ks pick

delegate-IsReported :
    (a : Addr) (e : Event) (h : Hub) {x y z : ℕ} {ks : (Message → Bool) → ℕ}
    → IsReported x y z ks h
    → IsReported
        (one_if (is_message e) + x)
        (one_if (is_finished e) + y)
        (one_if (is_requeued e) + z)
        (λ pick. one_if (is_message_that pick e) + ks pick)
        (consumer_delegate a e h)
unfolding consumer_delegate
delegate-IsReported a (message m) h v = record {
  received = omega (arith, v.received);
  finished = omega (arith, v.finished);
  requeued = omega (arith, v.requeued);
  sent = λ pick. omega (arith, v.sent pick, tally-append pick h.incoming (m ∷ []));
}
delegate-IsReported a e h v = record {
  received = omega (arith, v.received);
  finished = omega (arith, v.finished);
  requeued = omega (arith, v.requeued);
  sent = λ pick. omega (arith, v.sent pick);
}

pub delegates-IsReported :
    (a : Addr) (es : List Event) (h : Hub) {x y z : ℕ} {ks : (Message → Bool) → ℕ}
    → IsReported x y z ks h
    → IsReported
        (count is_message es + x)
        (count is_finished es + y)
        (count is_requeued es + z)
        (λ pick. count (is_message_that pick) es + ks pick)
        (consumer_delegates a es h)
unfolding consumer_delegates
delegates-IsReported a [] h v = record {
  received = omega (arith, v.received);
  finished = omega (arith, v.finished);
  requeued = omega (arith, v.requeued);
  sent = λ pick. omega (arith, v.sent pick);
}
delegates-IsReported a (e ∷ es) h v =
    let w = delegate-IsReported a e (consumer_delegates a es h) (delegates-IsReported a es h v) in
    record {
      received = omega (arith, w.received);
      finished = omega (arith, w.finished);
      requeued = omega (arith, w.requeued);
      sent = λ pick. omega (arith, w.sent pick);
    }

module _ (top : ℕ) where
  response-IsHeld :
      (a : Addr) (body : List ℕ) (r : Consumer)
      → IsHeld top r
      → IsHeld top (on_conn_response a body r)
  unfolding on_conn_response
  response-IsHeld a body r v = elim (Bool-cases (bytes_eq body (codes "CLOSE_WAIT"))) [
    | inl hit ↦ rw hit (Step-IsHeld top (History.Step.starts_closing r a) tt v)
    | inr miss ↦ rw miss v
  ]

  stored_close-IsHeld : (a : Addr) (r : Consumer) → IsHeld top r → IsHeld top (stored_close a r)
  unfolding stored_close
  stored_close-IsHeld a r v = elim (Option-cases (find a r.connections)) [
    | inl e ↦ rw (e, stored_close) v
    | inr (c, e) ↦
        let same : a ≡ c.addr = (bytes_eq_iff a c.addr).0 (find-addr a r.connections e) in
        rw (e, stored_close) (Step-IsHeld top (History.Step.closes r c) (inl (rw same at e)) v)
  ]

  delegate-IsHeld :
      (a : Addr) (e : Event) (h : Hub)
      → IsHeld top h.consumer
      → IsHeld top (consumer_delegate a e h).consumer
  unfolding consumer_delegate
  delegate-IsHeld a (response body) h v = response-IsHeld a body h.consumer v
  delegate-IsHeld a (error body) h v = v
  delegate-IsHeld a (message m) h v = v
  delegate-IsHeld a message_finished h v = v
  delegate-IsHeld a message_requeued h v = v
  delegate-IsHeld a on_backoff h v =
      Step-IsHeld top (History.Step.signals h.consumer backoff_flag) tt v
  delegate-IsHeld a on_continue h v =
      Step-IsHeld top (History.Step.signals h.consumer continue_flag) tt v
  delegate-IsHeld a on_resume h v =
      Step-IsHeld top (History.Step.signals h.consumer resume_flag) tt v
  delegate-IsHeld a io_error h v = Step-IsHeld top (History.Step.starts_closing h.consumer a) tt v
  delegate-IsHeld a heartbeat h v = v
  delegate-IsHeld a Event.on_close h v = stored_close-IsHeld a h.consumer v
  delegate-IsHeld a (wrote cmd) h v = v

  pub delegates-IsHeld :
      (a : Addr) (es : List Event) (h : Hub)
      → IsHeld top h.consumer
      → IsHeld top (consumer_delegates a es h).consumer
  unfolding consumer_delegates
  delegates-IsHeld a [] h v = v
  delegates-IsHeld a (e ∷ es) h v = delegate-IsHeld a e _ (delegates-IsHeld a es h v)
