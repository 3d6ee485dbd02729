-- ===== src/Delegates/Counting.antt =====
-- conn.go: the messages that a connection hands on, and the answers that it reports.
use go_nsq.Base.{
  ℕ, ◌+◌, ◌≤◌, ◌<◌, ◌≡◌, ◌≢◌, ◌⊎◌, inl, inr, refl, sym, ap, ◌∙◌, Bool, true, false, ◌&&◌, List, [],
  ◌∷◌, ◌++◌, arith, ◌==◌, codes, Bool-cases,
}
use go_nsq.Base.Int.{ℤ, eqb_ℤ}
use go_nsq.Base.Bytes.{bytes_eq}
use go_nsq.Command.{Command, nop}
use go_nsq.Message.{Message, Decoded, ok, err, decode_message}
use go_nsq.Protocol.{frame_type_response, frame_type_error, frame_type_message}
use go_nsq.Conn.{
  Conn, MsgResponse, announce, on_resume, on_backoff, on_continue, message_finished,
  message_requeued, idle, draining, saw_empty, Event, io_error, heartbeat, response, error, message,
  wrote, connected, emit, close, write_command, leave_read, on_decoded, on_heartbeat, on_frame,
  on_read_error, read_exit, take_response, on_response, on_command, drain, check_reading, Step,
}
use go_nsq.Conn.Closing.{if_kept}

abbrev pub is_message : Event → Bool
is_message (message m) = true
is_message _ = false

abbrev pub is_finished : Event → Bool
is_finished message_finished = true
is_finished _ = false

abbrev pub is_requeued : Event → Bool
is_requeued message_requeued = true
is_requeued _ = false

abbrev pub one_if : Bool → ℕ
one_if true = 1
one_if false = 0

abbrev pub count : (Event → Bool) → List Event → ℕ
count pick [] = 0
count pick (e ∷ es) = one_if (pick e) + count pick es

pub count-append :
    (pick : Event → Bool) (xs ys : List Event)
    → count pick (xs ++ ys) ≡ count pick xs + count pick ys
count-append pick [] ys = omega arith
count-append pick (e ∷ xs) ys = omega (arith, count-append pick xs ys)

abbrev pub is_message_that : (Message → Bool) → Event → Bool
is_message_that pick (message m) = pick m
is_message_that pick _ = false

-- The messages reported as answered.
abbrev pub reported : List Event → ℕ
reported es = count is_finished es + count is_requeued es

pub record IsTallied (c : Conn) : Type 0 where
  pub same : c.messages_in_flight ≡ c.outstanding
  pub most : reported c.events + c.messages_in_flight ≤ count is_message c.events
  -- The clean-up throws answers away.
  pub all :
      (c.cleanup ≢ idle) ⊎ (reported c.events + c.messages_in_flight ≡ count is_message c.events)

-- Four fields matter.
same_tally :
    {c : Conn} (d : Conn)
    → IsTallied c
    → d.messages_in_flight ≡ c.messages_in_flight
    → d.outstanding ≡ c.outstanding
    → reported d.events ≡ reported c.events
    → count is_message d.events ≡ count is_message c.events
    → d.cleanup ≡ c.cleanup
    → IsTallied d
same_tally d v flight out answers handed phase = record {
  same = omega (arith, v.same, flight, out);
  most = omega (arith, v.most, flight, answers, handed);
  all = elim v.all [
    | inl left ↦ inl (λ e. left (sym phase ∙ e))
    | inr exact ↦ inr (omega (arith, exact, flight, answers, handed))
  ];
}

leave-IsTallied : (c : Conn) → IsTallied c → IsTallied (leave_read c)
leave-IsTallied c v = same_tally _ v refl refl refl refl refl

close-IsTallied : (c : Conn) → IsTallied c → IsTallied (close c)
unfolding close
close-IsTallied c v =
    if_kept IsTallied c.exit_closed v (record { same = v.same; most = v.most; all = inl (λ e. cc) })

quiet-IsTallied :
    (e : Event) (c : Conn)
    → is_message e ≡ false
    → is_finished e ≡ false
    → is_requeued e ≡ false
    → IsTallied c
    → IsTallied (emit e c)
quiet-IsTallied e c h k l v =
    same_tally _ v refl refl (rw (k, l) (omega arith)) (rw h (omega arith)) refl

write-IsTallied :
    (fails : Bool) (cmd : Command) (c : Conn) → IsTallied c → IsTallied (write_command fails cmd c)
unfolding write_command
write-IsTallied fails cmd c v =
    if_kept IsTallied fails (quiet-IsTallied io_error c refl refl refl v)
      (quiet-IsTallied (wrote cmd) c refl refl refl v)

heartbeat-IsTallied : (fails : Bool) (c : Conn) → IsTallied c → IsTallied (on_heartbeat fails c)
unfolding on_heartbeat
heartbeat-IsTallied fails c v =
    let written = write_command fails nop (emit heartbeat c) in
    let w : IsTallied written =
      write-IsTallied fails nop (emit heartbeat c) (quiet-IsTallied heartbeat c refl refl refl v) in
    if_kept IsTallied fails (leave-IsTallied _ (quiet-IsTallied io_error written refl refl refl w))
      w

decoded-IsTallied : (d : Decoded) (c : Conn) → IsTallied c → IsTallied (on_decoded d c)
unfolding on_decoded
decoded-IsTallied (err e) c v = leave-IsTallied _ (quiet-IsTallied io_error c refl refl refl v)
decoded-IsTallied (ok m) c v = record {
  same = omega (arith, v.same);
  most = omega (arith, v.most);
  all = elim v.all [ inl left ↦ inl left | inr exact ↦ inr (omega (arith, exact)) ];
}

reported-IsTallied :
    (signal answer : Event) (c : Conn)
    → 0 < c.outstanding
    → IsTallied c
    → is_message answer ≡ false
    → one_if (is_finished answer) + one_if (is_requeued answer) ≡ 1
    → is_message signal ≡ false
    → is_finished signal ≡ false
    → is_requeued signal ≡ false
    → IsTallied (emit signal (emit answer (take_response c)))
reported-IsTallied signal answer c some_out v h k l m n = quiet-IsTallied signal _ l m n (record {
  same = omega (arith, v.same);
  most = omega (arith, v.most, v.same, some_out, k, ap one_if h);
  all = elim v.all [
    | inl left ↦ inl left
    | inr exact ↦ inr (omega (arith, exact, v.same, some_out, k, ap one_if h))
  ];
})

frame-IsTallied :
    (fails : Bool) (frame_type : ℤ) (body : List ℕ) (c : Conn)
    → IsTallied c
    → IsTallied (on_frame fails frame_type body c)
unfolding on_frame
frame-IsTallied fails frame_type body c v =
    if_kept IsTallied (eqb_ℤ frame_type frame_type_response && bytes_eq body (codes "_heartbeat_"))
      (heartbeat-IsTallied fails c v)
      (if_kept IsTallied (eqb_ℤ frame_type frame_type_response)
        (quiet-IsTallied (response body) c refl refl refl v)
        (if_kept IsTallied (eqb_ℤ frame_type frame_type_message)
          (decoded-IsTallied (decode_message body) c v)
          (if_kept IsTallied (eqb_ℤ frame_type frame_type_error)
            (quiet-IsTallied (error body) c refl refl refl v)
            (quiet-IsTallied io_error c refl refl refl v))))

read_error-IsTallied :
    (is_eof is_closed_here : Bool) (c : Conn)
    → IsTallied c
    → IsTallied (on_read_error is_eof is_closed_here c)
unfolding on_read_error
read_error-IsTallied is_eof is_closed_here c v =
    if_kept IsTallied (is_eof && c.close_flag) (leave-IsTallied c v) (
      if_kept IsTallied is_closed_here (leave-IsTallied c v)
        (leave-IsTallied _ (quiet-IsTallied io_error c refl refl refl v)))

read_exit-IsTallied : (c : Conn) → IsTallied c → IsTallied (read_exit c)
unfolding read_exit
read_exit-IsTallied c v =
    same_tally _ (if_kept IsTallied (c.messages_in_flight == 0) (close-IsTallied c v) v) refl refl
      refl refl refl

-- A message is reported when its answer is taken.
announce-IsTallied :
    (r : MsgResponse) (c : Conn)
    → 0 < c.outstanding
    → IsTallied c
    → IsTallied (announce r (take_response c))
unfolding announce
announce-IsTallied r c some_out v =
    if_kept IsTallied r.success
      (reported-IsTallied on_resume message_finished c some_out v refl refl refl refl refl)
      (if_kept IsTallied r.backoff
        (reported-IsTallied on_backoff message_requeued c some_out v refl refl refl refl refl)
        (reported-IsTallied on_continue message_requeued c some_out v refl refl refl refl refl))

response-IsTallied :
    (fails : Bool) (r : MsgResponse) (c : Conn)
    → 0 < c.outstanding
    → IsTallied c
    → IsTallied (on_response fails r c)
unfolding on_response
response-IsTallied fails r c some_out v =
    let d = write_command fails r.cmd (announce r (take_response c)) in
    let w : IsTallied d = write-IsTallied fails r.cmd _ (announce-IsTallied r c some_out v) in
    if_kept IsTallied fails (close-IsTallied d w)
      (if_kept IsTallied (d.messages_in_flight == 0 && d.close_flag) (close-IsTallied d w) w)

command-IsTallied :
    (fails : Bool) (cmd : Command) (c : Conn) → IsTallied c → IsTallied (on_command fails cmd c)
unfolding on_command
command-IsTallied fails cmd c v =
    let d = write_command fails cmd c in
    let w : IsTallied d = write-IsTallied fails cmd c v in
    if_kept IsTallied fails (close-IsTallied d w) w

drain-IsTallied : (c : Conn) → c.cleanup ≡ draining → IsTallied c → IsTallied (drain c)
unfolding drain
drain-IsTallied c on v =
    if_kept IsTallied (c.messages_in_flight == 0)
      (record { same = v.same; most = v.most; all = inl (λ e. cc) }) v

check-IsTallied : (c : Conn) → c.cleanup ≡ saw_empty → IsTallied c → IsTallied (check_reading c)
unfolding check_reading
check-IsTallied c on v = elim (Bool-cases c.read_running) [
  | inl e ↦ rw e (record { same = v.same; most = v.most; all = inl (λ e. cc) })
  | inr e ↦ rw e (record { same = v.same; most = v.most; all = inl (λ e. cc) })
]

-- Each step of a connection keeps the tally.
pub Step-IsTallied : {c d : Conn} → Step c d → IsTallied c → IsTallied d
Step-IsTallied (Step.set_close_flag c) v = same_tally _ v refl refl refl refl refl
Step-IsTallied (Step.saw_close_flag c _ _) v = leave-IsTallied c v
Step-IsTallied (Step.read_frame c fails frame_type body on) v =
    frame-IsTallied fails frame_type body c v
Step-IsTallied (Step.read_fails c is_eof is_closed_here _) v =
    read_error-IsTallied is_eof is_closed_here c v
Step-IsTallied (Step.read_ends c _ _) v = read_exit-IsTallied c v
Step-IsTallied (Step.write_response c fails r _ some_out) v =
    response-IsTallied fails r c some_out v
Step-IsTallied (Step.send_command c fails cmd _) v = command-IsTallied fails cmd c v
Step-IsTallied (Step.write_ends c _ _) v = same_tally _ v refl refl refl refl refl
Step-IsTallied (Step.drain_response c _ on some_out) v =
    drain-IsTallied (take_response c) on
      (record { same = omega (arith, v.same); most = omega (arith, v.most); all = inl (λ e. cc) })
Step-IsTallied (Step.drain_tick c _ on) v = drain-IsTallied c on v
Step-IsTallied (Step.drain_check c on) v = check-IsTallied c on v
Step-IsTallied (Step.all_ended c _ _ _ _) v =
    same_tally _ v refl refl (omega arith) (omega arith) refl

pub connected-IsTallied : IsTallied connected
connected-IsTallied = record { same = refl; most = omega arith; all = inr refl }
