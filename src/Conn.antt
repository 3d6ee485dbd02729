-- ===== src/Conn.antt =====
-- conn.go: the read loop, the write loop, and the orderly close of a connection.
pub mod Closing
pub mod Tests
use go_nsq.Base.{
  ℕ, zero, suc, ◌+◌, ◌-◌, ◌*◌, ◌<◌, ◌≡◌, ◌⊎◌, inl, inr, Bool, true, false, ◌&&◌, ◌||◌, List, [],
  ◌∷◌, codes, if◌then◌else◌, ◌==◌,
}
use go_nsq.Base.Int.{ℤ, pos, negsuc, eqb_ℤ, ltb_ℤ, sub_ℕ}
use go_nsq.Base.Bytes.{bytes_eq}
use go_nsq.Base.Words.{wrap64}
use go_nsq.Command.{Command, nop, finish, requeue, touch}
use go_nsq.Message.{
  DelegateCall, on_finish, on_requeue, on_touch, Message, decode_message, Decoded, ok, err,
}
use go_nsq.Protocol.{frame_type_response, frame_type_error, frame_type_message}

-- What the goroutine started by close has come to; in saw_empty it has read a count of zero and not
-- yet readLoopRunning.
pub data Cleanup : Type 0 where
  idle draining saw_empty done : Cleanup

abbrev pub is_saw_empty : Cleanup → Bool
is_saw_empty saw_empty = true
is_saw_empty idle = false
is_saw_empty draining = false
is_saw_empty done = false

-- What the loops call and write, the last one first.
pub data Event : Type 0 where
  heartbeat io_error on_close : Event
  message_finished message_requeued on_backoff on_continue on_resume : Event
  response error : List ℕ → Event
  message : Message → Event
  wrote : Command → Event

-- `outstanding` counts the messages that were handed on and are not answered yet. `read_running` is
-- readLoopRunning, `read_done` and `write_done` are the loops' calls of wg.Done, `exit_closed` says
-- that stopper and exitChan are used up, `waiting` that waitForCleanup runs. `late_read` is no state
-- of the code: it records that the read loop handed on a message after cleanup had read a count of
-- zero and before it read readLoopRunning.
pub record Conn : Type 0 where
  pub close_flag : Bool
  pub messages_in_flight : ℕ
  pub outstanding : ℕ
  pub read_running : Bool
  pub read_done : Bool
  pub write_done : Bool
  pub exit_closed : Bool
  pub drain_ready : Bool
  pub cleanup : Cleanup
  pub late_read : Bool
  pub waiting : Bool
  pub on_close_calls : ℕ
  pub events : List Event

-- What Connect leaves behind.
abbrev pub connected : Conn
connected = record {
  close_flag = false;
  messages_in_flight = 0;
  outstanding = 0;
  read_running = true;
  read_done = false;
  write_done = false;
  exit_closed = false;
  drain_ready = false;
  cleanup = idle;
  late_read = false;
  waiting = false;
  on_close_calls = 0;
  events = [];
}

abbrev pub emit : Event → Conn → Conn
emit e c = record c { events = e ∷ c.events }

-- (*Conn).close
unfoldable pub close : Conn → Conn
close c =
    if c.exit_closed then c else record c { exit_closed = true; cleanup = draining; waiting = true }

-- WriteCommand, with the delegate's OnIOError when the write fails.
unfoldable pub write_command : Bool → Command → Conn → Conn
write_command fails cmd c = if fails then emit io_error c else emit (wrote cmd) c

abbrev pub leave_read : Conn → Conn
leave_read c = record c { read_running = false }

-- The read loop on one of its frames.
unfoldable pub on_decoded : Decoded → Conn → Conn
on_decoded (err _) c = leave_read (emit io_error c)
on_decoded (ok m) c = emit (message m) (record c {
  messages_in_flight = c.messages_in_flight + 1;
  outstanding = c.outstanding + 1;
  late_read = c.late_read || is_saw_empty c.cleanup;
})

unfoldable pub on_heartbeat : Bool → Conn → Conn
unfolding write_command
on_heartbeat fails c =
    let written = write_command fails nop (emit heartbeat c) in
    if fails then leave_read (emit io_error written) else written

unfoldable pub on_frame : Bool → ℤ → List ℕ → Conn → Conn
unfolding on_decoded on_heartbeat
on_frame fails frame_type body c =
    if eqb_ℤ frame_type frame_type_response && bytes_eq body (codes "_heartbeat_")
    then on_heartbeat fails c
    else if eqb_ℤ frame_type frame_type_response
    then emit (response body) c
    else if eqb_ℤ frame_type frame_type_message
    then on_decoded (decode_message body) c
    else if eqb_ℤ frame_type frame_type_error
    then emit (error body) c
    else emit io_error c

-- The read loop when the read fails: silent at the end of the input of a connection that closes,
-- and when the socket was closed here.
unfoldable pub on_read_error : Bool → Bool → Conn → Conn
on_read_error is_eof is_closed_here c =
    if is_eof && c.close_flag
    then leave_read c
    else if is_closed_here
    then leave_read c
    else leave_read (emit io_error c)

-- The end of the read loop.
unfoldable pub read_exit : Conn → Conn
unfolding close
read_exit c =
    let d = if c.messages_in_flight == 0 then close c else c in record d { read_done = true }

-- A response leaves msgResponseChan.
abbrev pub take_response : Conn → Conn
take_response c = record c {
  outstanding = c.outstanding - 1;
  messages_in_flight = c.messages_in_flight - 1;
}

-- msgResponse, less the message.
pub record MsgResponse : Type 0 where
  pub cmd : Command
  pub success : Bool
  pub backoff : Bool

-- The delegate's calls for a response: the counters, and the backoff signal.
unfoldable pub announce : MsgResponse → Conn → Conn
announce r c =
    if r.success
    then emit on_resume (emit message_finished c)
    else if r.backoff
    then emit on_backoff (emit message_requeued c)
    else emit on_continue (emit message_requeued c)

-- The write loop on a response.
unfoldable pub on_response : Bool → MsgResponse → Conn → Conn
unfolding write_command close announce
on_response fails r c =
    let d = write_command fails r.cmd (announce r (take_response c)) in
    if fails then close d else if d.messages_in_flight == 0 && d.close_flag then close d else d

-- The write loop on cmdChan.
unfoldable pub on_command : Bool → Command → Conn → Conn
unfolding write_command close
on_command fails cmd c = let d = write_command fails cmd c in if fails then close d else d

-- One round of cleanup: first the count, then readLoopRunning.
unfoldable pub drain : Conn → Conn
drain c =
    if c.messages_in_flight == 0 then record c { cleanup = saw_empty; late_read = false } else c

unfoldable pub check_reading : Conn → Conn
check_reading c = record c { cleanup = if c.read_running then draining else done }

-- onMessageFinish
unfoldable pub finish_response : Message → MsgResponse
finish_response m = record { cmd = finish m.id; success = true; backoff = false }

-- A duration multiplied by a count.
abbrev times : ℤ → ℕ → ℤ
times (pos d) n = pos (d * n)
times (negsuc d) n = sub_ℕ 0 ((d + 1) * n)

unfoldable pub requeue_delay : ℤ → ℤ → ℤ → ℕ → ℤ
requeue_delay default_delay max_delay (negsuc zero) attempts =
    let linear = wrap64 (times default_delay attempts) in
    if ltb_ℤ max_delay linear then max_delay else linear
requeue_delay default_delay max_delay delay attempts = delay

-- onMessageRequeue; DefaultRequeueDelay and MaxRequeueDelay are arguments.
unfoldable pub requeue_response : ℤ → ℤ → Message → ℤ → Bool → MsgResponse
unfolding requeue_delay
requeue_response default_delay max_delay m delay backoff = record {
  cmd = requeue m.id (requeue_delay default_delay max_delay delay m.attempts);
  success = false;
  backoff = backoff;
}

-- connMessageDelegate: what the write loop is sent. A touch goes through cmdChan.
unfoldable pub deliver : ℤ → ℤ → Message → DelegateCall → MsgResponse ⊎ Command
unfolding finish_response requeue_response
deliver default_delay max_delay m on_finish = inl (finish_response m)
deliver default_delay max_delay m (on_requeue delay backoff) =
    inl (requeue_response default_delay max_delay m delay backoff)
deliver default_delay max_delay m on_touch = inr (touch m.id)

-- One step of a goroutine of the connection, or a call of Close.
pub data Step : Conn → Conn → Type 0 where
  set_close_flag : (c : Conn) → Step c (record c { close_flag = true })
  saw_close_flag : (c : Conn) → c.read_running ≡ true → c.close_flag ≡ true → Step c (leave_read c)
  read_frame :
      (c : Conn) (fails : Bool) (frame_type : ℤ) (body : List ℕ)
      → c.read_running ≡ true
      → Step c (on_frame fails frame_type body c)
  read_fails :
      (c : Conn) (is_eof is_closed_here : Bool)
      → c.read_running ≡ true
      → Step c (on_read_error is_eof is_closed_here c)
  read_ends : (c : Conn) → c.read_running ≡ false → c.read_done ≡ false → Step c (read_exit c)
  write_response :
      (c : Conn) (fails : Bool) (r : MsgResponse)
      → c.write_done ≡ false
      → 0 < c.outstanding
      → Step c (on_response fails r c)
  send_command :
      (c : Conn) (fails : Bool) (cmd : Command)
      → c.write_done ≡ false
      → Step c (on_command fails cmd c)
  write_ends :
      (c : Conn)
      → c.exit_closed ≡ true
      → c.write_done ≡ false
      → Step c (record c { drain_ready = true; write_done = true })
  drain_response :
      (c : Conn)
      → c.drain_ready ≡ true
      → c.cleanup ≡ draining
      → 0 < c.outstanding
      → Step c (drain (take_response c))
  drain_tick : (c : Conn) → c.drain_ready ≡ true → c.cleanup ≡ draining → Step c (drain c)
  drain_check : (c : Conn) → c.cleanup ≡ saw_empty → Step c (check_reading c)
  all_ended :
      (c : Conn)
      → c.waiting ≡ true
      → c.read_done ≡ true
      → c.write_done ≡ true
      → c.cleanup ≡ done
      → Step c (emit on_close (record c { waiting = false; on_close_calls = c.on_close_calls + 1 }))

pub data Reach (s : Conn) : Conn → Type 0 where
  start : Reach s s
  step : {c d : Conn} → Reach s c → Step c d → Reach s d
