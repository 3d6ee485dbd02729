-- ===== src/Delegates/Reporting.antt =====
-- consumer.go: what Stats tells of the connections, and that their calls keep the account.
use go_nsq.Base.{ℕ}
use go_nsq.Base.Bytes.{All}
use go_nsq.Consumer.{Consumer}
use go_nsq.Consumer.History.{IsHeld}
use go_nsq.Message.{Message}
use go_nsq.Conn
use go_nsq.Conn.{
  heartbeat, io_error, message_finished, message_requeued, on_backoff, on_continue, on_resume,
  response, error, message, wrote, connected,
}
use go_nsq.Delegates.Counting.{is_message, is_message_that, is_finished, is_requeued, IsTallied}
use go_nsq.Delegates.Traffic.{Traffic}
use go_nsq.Delegates.Hearing.{over, IsReported}

record IsSound (top : ℕ) (n : Traffic) : Type 0 where
  held : IsHeld top n.hub.consumer
  counted :
      IsReported
        (over is_message n.conns)
        (over is_finished n.conns)
        (over is_requeued n.conns)
        (λ pick. over (is_message_that pick) n.conns)
        n.hub
  tallied : All (λ x. IsTallied x.1) n.conns
