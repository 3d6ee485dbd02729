-- ===== src/Conn/Tests.antt =====
-- conn.go: a connection that reads one message, closes, and answers it while it drains.
use go_nsq.Base.{ℕ, ◌+◌, ◌≤◌, ◌≡◌, ◌⊎◌, refl, true, false, List, [], ◌∷◌, ◌++◌, arith, codes}
use go_nsq.Base.Int.{pos, negsuc}
use go_nsq.Command.{nop, start_close}
use go_nsq.Message.{decode_message}
use go_nsq.Protocol.{frame_type_message, frame_type_response}
use go_nsq.Conn.{
  Conn, connected, close, done, drain, check_reading, emit, heartbeat, io_error, wrote, on_command,
  on_close, on_frame, on_read_error, read_exit, requeue_delay, take_response, Step, Reach,
}
use go_nsq.Conn.Closing.{Reach-IsClosedOnce}

abbrev pub body : List ℕ
body = 0 ∷ 0 ∷ 0 ∷ 0 ∷ 0 ∷ 0 ∷ 0 ∷ 5 ∷ 0 ∷ 1 ∷ codes "0123456789abcdefhi"

abbrev after_read : Conn
after_read = on_frame false frame_type_message body connected

abbrev after_error : Conn
after_error = on_read_error true false after_read

abbrev after_exit : Conn
after_exit = read_exit after_error

abbrev after_command : Conn
after_command = on_command true start_close after_exit

abbrev after_writer : Conn
after_writer = record after_command { drain_ready = true; write_done = true }

abbrev after_drain : Conn
after_drain = drain (take_response after_writer)

abbrev after_check : Conn
after_check = check_reading after_drain

abbrev closed : Conn
closed =
    emit on_close
      (record after_check { waiting = false; on_close_calls = after_check.on_close_calls + 1 })

-- The read loop hands a message on after the clean-up read a count of zero, and then ends.
abbrev raced : Conn
raced = check_reading (
    read_exit (
      on_read_error true true (
        on_frame false frame_type_message body (
          drain (record (on_command true start_close connected) {
            drain_ready = true;
            write_done = true;
          })))))

raced_unanswered : (raced.cleanup ≡ done) × (raced.outstanding ≡ 1) × (raced.late_read ≡ true)
unfolding on_frame on_read_error read_exit on_command drain check_reading close decode_message
raced_unanswered = (refl, refl, refl)

heartbeat_answered :
    (on_frame false frame_type_response (codes "_heartbeat_") connected).events
    ≡ wrote nop ∷ heartbeat ∷ []
unfolding on_frame go_nsq.Base.Bytes.bytes_eq
heartbeat_answered = refl

unknown_frame : (on_frame false (pos 7) [] connected).events ≡ io_error ∷ []
unfolding on_frame
unknown_frame = refl

delay_default : requeue_delay (pos 90) (pos 900) (negsuc 0) 3 ≡ pos 270
unfolding requeue_delay go_nsq.Base.Words.wrap64
delay_default = refl

delay_capped : requeue_delay (pos 90) (pos 200) (negsuc 0) 3 ≡ pos 200
unfolding requeue_delay go_nsq.Base.Words.wrap64
delay_capped = refl

reach_closed : Reach connected closed
unfolding on_frame on_read_error read_exit on_command drain check_reading close decode_message
reach_closed =
    let reach_read : Reach connected after_read =
      Reach.step Reach.start (Step.read_frame connected false frame_type_message body refl) in
    let reach_exit : Reach connected after_exit =
      Reach.step (Reach.step reach_read (Step.read_fails after_read true false refl))
        (Step.read_ends after_error refl refl) in
    let reach_writer : Reach connected after_writer =
      Reach.step (Reach.step reach_exit (Step.send_command after_exit true start_close refl))
        (Step.write_ends after_command refl refl) in
    let reach_drain : Reach connected after_drain =
      Reach.step reach_writer (Step.drain_response after_writer refl refl (omega arith)) in
    Reach.step (Reach.step reach_drain (Step.drain_check after_drain refl))
      (Step.all_ended after_check refl refl refl refl)

Reach-IsClosedOnce_example :
    (closed.messages_in_flight ≡ closed.outstanding)
    × (closed.on_close_calls ≤ 1)
    × ((closed.on_close_calls ≡ 0)
        ⊎ ((closed.read_done ≡ true)
            × (closed.write_done ≡ true)
            × ((closed.outstanding ≡ 0) ⊎ (closed.late_read ≡ true))))
Reach-IsClosedOnce_example = Reach-IsClosedOnce closed reach_closed
