-- ===== src/Conn/Closing.antt =====
-- conn.go: what holds when the delegate hears that the connection is closed.
use go_nsq.Base.{
  ℕ, ◌≤◌, ◌≡◌, ◌⊎◌, inl, inr, refl, Bool, true, false, ◌&&◌, List, arith, if◌then◌else◌, ◌==◌,
  Bool-cases, codes,
}
use go_nsq.Base.Int.{ℤ, eqb_ℤ}
use go_nsq.Base.Bytes.{bytes_eq}
use go_nsq.Command.{Command}
use go_nsq.Message.{Decoded, ok, err, decode_message}
use go_nsq.Protocol.{frame_type_response, frame_type_error, frame_type_message}
use go_nsq.Conn.{
  Conn, MsgResponse, announce, on_resume, on_backoff, on_continue, message_finished,
  message_requeued, idle, draining, saw_empty, done, Event, io_error, heartbeat, response, error,
  connected, emit, close, write_command, leave_read, on_decoded, on_heartbeat, on_frame,
  on_read_error, read_exit, take_response, on_response, on_command, drain, check_reading, Step,
  Reach,
}

pub record IsCounted (c : Conn) : Type 0 where
  -- The count of messages in flight is the number of messages without an answer.
  pub counted : c.messages_in_flight ≡ c.outstanding
  -- The clean-up ends when the read loop has ended, and no message is without an answer but those
  -- that were read between its two reads.
  pub drained :
      (c.cleanup ≡ idle)
      ⊎ (c.cleanup ≡ draining)
      ⊎ (((c.cleanup ≡ saw_empty) ⊎ (c.read_running ≡ false))
          × ((c.outstanding ≡ 0) ⊎ (c.late_read ≡ true)))
  -- OnClose is called once, and not before close.
  pub fresh : (c.exit_closed ≡ true) ⊎ ((c.waiting ≡ false) × (c.on_close_calls ≡ 0))
  pub once : ((c.waiting ≡ true) × (c.on_close_calls ≡ 0)) ⊎ (c.waiting ≡ false)
  pub few : c.on_close_calls ≤ 1
  pub told :
      (c.on_close_calls ≡ 0) ⊎ ((c.read_done ≡ true) × (c.write_done ≡ true) × (c.cleanup ≡ done))

pub if_kept {κ} : (P : Conn → Type κ) (b : Bool) {c d : Conn} → P c → P d → P (if b then c else d)
if_kept P true x y = x
if_kept P false x y = y

pub if_cases {κ} :
    (P : Conn → Type κ) (b : Bool) {c d : Conn}
    → (b ≡ true → P c)
    → (b ≡ false → P d)
    → P (if b then c else d)
if_cases P true x y = x refl
if_cases P false x y = y refl

-- Events do not matter, and the close flag neither.
emit-IsCounted : (e : Event) (c : Conn) → IsCounted c → IsCounted (emit e c)
emit-IsCounted e c v = record {
  counted = v.counted;
  drained = v.drained;
  fresh = v.fresh;
  once = v.once;
  few = v.few;
  told = v.told;
}

leave-IsCounted : (c : Conn) → IsCounted c → IsCounted (leave_read c)
leave-IsCounted c v = record {
  counted = v.counted;
  drained = ground (arith, v.drained);
  fresh = v.fresh;
  once = v.once;
  few = v.few;
  told = v.told;
}

close-IsCounted : (c : Conn) → IsCounted c → IsCounted (close c)
unfolding close
close-IsCounted c v = elim (Bool-cases c.exit_closed) [
  | inl e ↦ simp e v
  | inr e ↦ simp e (record {
    counted = v.counted;
    drained = inr (inl refl);
    fresh = inl refl;
    once = inl (refl, ground (arith, e, v.fresh));
    few = v.few;
    told = inl (ground (arith, e, v.fresh));
  })
]

write-IsCounted :
    (fails : Bool) (cmd : Command) (c : Conn) → IsCounted c → IsCounted (write_command fails cmd c)
unfolding write_command
write-IsCounted true cmd c v = emit-IsCounted io_error c v
write-IsCounted false cmd c v = emit-IsCounted _ c v

heartbeat-IsCounted : (fails : Bool) (c : Conn) → IsCounted c → IsCounted (on_heartbeat fails c)
unfolding on_heartbeat write_command
heartbeat-IsCounted true c v =
    leave-IsCounted _
      (emit-IsCounted io_error _ (emit-IsCounted io_error _ (emit-IsCounted heartbeat c v)))
heartbeat-IsCounted false c v = emit-IsCounted _ _ (emit-IsCounted heartbeat c v)

-- A frame is read, so the clean-up has not ended.
decoded-IsCounted :
    (d : Decoded) (c : Conn) → c.read_running ≡ true → IsCounted c → IsCounted (on_decoded d c)
unfolding on_decoded
decoded-IsCounted (err e) c on v = leave-IsCounted _ (emit-IsCounted io_error c v)
decoded-IsCounted (ok m) c on v = record {
  counted = omega (arith, v.counted);
  drained = ground (arith, on, v.drained);
  fresh = v.fresh;
  once = v.once;
  few = v.few;
  told = v.told;
}

frame-IsCounted :
    (fails : Bool) (frame_type : ℤ) (body : List ℕ) (c : Conn)
    → c.read_running ≡ true
    → IsCounted c
    → IsCounted (on_frame fails frame_type body c)
unfolding on_frame
frame-IsCounted fails frame_type body c on v =
    if_kept IsCounted (eqb_ℤ frame_type frame_type_response && bytes_eq body (codes "_heartbeat_"))
      (heartbeat-IsCounted fails c v)
      (if_kept IsCounted (eqb_ℤ frame_type frame_type_response) (emit-IsCounted (response body) c v)
        (if_kept IsCounted (eqb_ℤ frame_type frame_type_message)
          (decoded-IsCounted (decode_message body) c on v)
          (if_kept IsCounted (eqb_ℤ frame_type frame_type_error) (emit-IsCounted (error body) c v)
            (emit-IsCounted io_error c v))))

take-IsCounted : (c : Conn) → IsCounted c → IsCounted (take_response c)
take-IsCounted c v = record {
  counted = omega (arith, v.counted);
  drained = ground (arith, v.drained);
  fresh = v.fresh;
  once = v.once;
  few = v.few;
  told = v.told;
}

read_done-IsCounted : (c : Conn) → IsCounted c → IsCounted (record c { read_done = true })
read_done-IsCounted c v = record {
  counted = v.counted;
  drained = v.drained;
  fresh = v.fresh;
  once = v.once;
  few = v.few;
  told = ground (arith, v.told);
}

drain-IsCounted : (c : Conn) → c.cleanup ≡ draining → IsCounted c → IsCounted (drain c)
unfolding drain
drain-IsCounted c on v =
    if_cases IsCounted (c.messages_in_flight == 0)
      (λ empty. record {
        counted = v.counted;
        drained = inr (inr (inl refl, inl (ground (arith, empty, v.counted))));
        fresh = v.fresh;
        once = v.once;
        few = v.few;
        told = ground (arith, on, v.told);
      })
      (λ _. v)

check-IsCounted : (c : Conn) → c.cleanup ≡ saw_empty → IsCounted c → IsCounted (check_reading c)
unfolding check_reading
check-IsCounted c on v = record {
  counted = v.counted;
  drained = elim (Bool-cases c.read_running) [
    | inl e ↦ rw e (inr (inl refl))
    | inr e ↦ inr (inr (inr e, ground (arith, on, v.drained)))
  ];
  fresh = v.fresh;
  once = v.once;
  few = v.few;
  told = ground (arith, on, v.told);
}

read_error-IsCounted :
    (is_eof is_closed_here : Bool) (c : Conn)
    → IsCounted c
    → IsCounted (on_read_error is_eof is_closed_here c)
unfolding on_read_error
read_error-IsCounted is_eof is_closed_here c v =
    if_kept IsCounted (is_eof && c.close_flag) (leave-IsCounted c v) (
      if_kept IsCounted is_closed_here (leave-IsCounted c v)
        (leave-IsCounted (emit io_error c) (emit-IsCounted io_error c v)))

read_exit-IsCounted : (c : Conn) → IsCounted c → IsCounted (read_exit c)
unfolding read_exit
read_exit-IsCounted c v =
    read_done-IsCounted _ (if_kept IsCounted (c.messages_in_flight == 0) (close-IsCounted c v) v)

announce-IsCounted : (r : MsgResponse) (c : Conn) → IsCounted c → IsCounted (announce r c)
unfolding announce
announce-IsCounted r c v =
    if_kept IsCounted r.success
      (emit-IsCounted on_resume (emit message_finished c) (emit-IsCounted message_finished c v))
      (if_kept IsCounted r.backoff
        (emit-IsCounted on_backoff (emit message_requeued c) (emit-IsCounted message_requeued c v))
        (emit-IsCounted on_continue (emit message_requeued c)
          (emit-IsCounted message_requeued c v)))

response-IsCounted :
    (fails : Bool) (r : MsgResponse) (c : Conn) → IsCounted c → IsCounted (on_response fails r c)
unfolding on_response
response-IsCounted fails r c v =
    let d = write_command fails r.cmd (announce r (take_response c)) in
    let w : IsCounted d =
      write-IsCounted fails r.cmd _ (announce-IsCounted r _ (take-IsCounted c v)) in
    if_kept IsCounted fails (close-IsCounted d w)
      (if_kept IsCounted (d.messages_in_flight == 0 && d.close_flag) (close-IsCounted d w) w)

command-IsCounted :
    (fails : Bool) (cmd : Command) (c : Conn) → IsCounted c → IsCounted (on_command fails cmd c)
unfolding on_command
command-IsCounted fails cmd c v =
    let d = write_command fails cmd c in
    let w : IsCounted d = write-IsCounted fails cmd c v in
    if_kept IsCounted fails (close-IsCounted d w) w

Step-IsCounted : {c d : Conn} → Step c d → IsCounted c → IsCounted d
Step-IsCounted (Step.set_close_flag c) v = record {
  counted = v.counted;
  drained = v.drained;
  fresh = v.fresh;
  once = v.once;
  few = v.few;
  told = v.told;
}
Step-IsCounted (Step.saw_close_flag c _ _) v = leave-IsCounted c v
Step-IsCounted (Step.read_frame c fails frame_type body on) v =
    frame-IsCounted fails frame_type body c on v
Step-IsCounted (Step.read_fails c is_eof is_closed_here _) v =
    read_error-IsCounted is_eof is_closed_here c v
Step-IsCounted (Step.read_ends c _ _) v = read_exit-IsCounted c v
Step-IsCounted (Step.write_response c fails cmd _ _) v = response-IsCounted fails cmd c v
Step-IsCounted (Step.send_command c fails cmd _) v = command-IsCounted fails cmd c v
Step-IsCounted (Step.write_ends c _ _) v = record {
  counted = v.counted;
  drained = v.drained;
  fresh = v.fresh;
  once = v.once;
  few = v.few;
  told = ground (arith, v.told);
}
Step-IsCounted (Step.drain_response c _ on _) v =
    drain-IsCounted (take_response c) on (take-IsCounted c v)
Step-IsCounted (Step.drain_tick c _ on) v = drain-IsCounted c on v
Step-IsCounted (Step.drain_check c on) v = check-IsCounted c on v
Step-IsCounted (Step.all_ended c waits read write ended) v = record {
  counted = v.counted;
  drained = v.drained;
  fresh = ground (arith, waits, v.fresh);
  once = inr refl;
  few = ground (arith, waits, v.once);
  told = inr (read, write, ended);
}

counted : {c : Conn} → Reach connected c → IsCounted c
counted Reach.start = record {
  counted = refl;
  drained = inl refl;
  fresh = inr (refl, refl);
  once = inr refl;
  few = omega arith;
  told = inl refl;
}
counted (Reach.step reach s) = Step-IsCounted s (counted reach)

-- In every state that a new connection can reach, the count of messages in flight is the number
-- of messages without an answer, OnClose has been called at most once, and if it has, both loops
-- have ended, and every message has been answered unless the read loop handed on a message between
-- the two reads of the clean-up's last round.
pub Reach-IsClosedOnce :
    (c : Conn)
    → Reach connected c
    → (c.messages_in_flight ≡ c.outstanding)
      × (c.on_close_calls ≤ 1)
      × ((c.on_close_calls ≡ 0)
          ⊎ ((c.read_done ≡ true)
              × (c.write_done ≡ true)
              × ((c.outstanding ≡ 0) ⊎ (c.late_read ≡ true))))
Reach-IsClosedOnce c reach =
    let v = counted reach in (v.counted, v.few, ground (arith, v.told, v.drained))
