-- ===== src/Producer/Tests.antt =====
-- producer.go: a publication that is answered, and a connection that fails while connect runs.
use go_nsq.Base.{
  Option, arith, ◌+◌, ◌≡◌, ◌≢◌, ◌⊎◌, inl, refl, true, false, [], ◌∷◌, ◌++◌, some, codes, length,
}
use go_nsq.Protocol.{frame_type_error}
use go_nsq.Producer.{
  Producer, Transaction, Answer, off, running, protocol, new_producer, Step, Reach, finish,
  pop_transaction, route, begin_cleanup, finish_all, clean_up, connect_done, store_connected,
  check_connect, close, on_conn_io_error, is_open, failed, absent, Error,
}
use go_nsq.Producer.Order.{answered, deliverable, Reach-IsOrdered}
use go_nsq.Producer.Calls.{publication, publish_sync, send_command, count, on_the_way, at_the_end}
use go_nsq.Producer.Places.{Reach-IsConserved}
use go_nsq.Producer.Returns.{is_call}
use go_nsq.Producer.Publishing.{send_command-Says, send_command_returns}
use go_nsq.Producer.Attendance.{IsStarting, IsExcused, dialling_count}
use go_nsq.Producer.Senders.{Reach-IsAttended}

abbrev hello : Transaction
hello = publish_sync 1 (publication (codes "logs") (some (codes "hi")))

abbrev entered : Producer
entered = record new_producer { entered = hello ∷ []; concurrent_producers = 1 }

abbrev dialled : Producer
dialled = record entered { entered = []; dialling = some (some hello); link = is_open }

abbrev ready : Producer
ready = connect_done (some hello) (store_connected dialled)

abbrev sent : Producer
sent = route hello false (record ready { waiting = [] })

abbrev answer : Answer
answer = record { transaction = hello; error = some (protocol (codes "E_BAD_TOPIC")) }

abbrev done : Producer
done = record sent { transactions = []; answers = answer ∷ []; delivered = answer ∷ [] }

reach_dialled : Reach new_producer dialled
unfolding check_connect
reach_dialled =
    Reach.step (Reach.step Reach.start (Step.enter new_producer hello))
      (Step.dial entered [] [] hello refl refl refl refl)

reach_done : Reach new_producer done
unfolding route connect_done store_connected pop_transaction finish publish_sync
reach_done =
    Reach.step
      (Reach.step
        (Reach.step (Reach.step reach_dialled (Step.store_state dialled (some hello) refl refl))
          (Step.connect (store_connected dialled) (some hello) refl refl))
        (Step.take_transaction ready [] [] hello false refl refl))
      (Step.respond sent done frame_type_error (codes "E_BAD_TOPIC") refl refl)

-- The error is lost on close, since the state is not connected yet: the router leaves, and the next
-- call finds the state connected and blocks with no router.
abbrev lost : Producer
lost = record dialled { link = failed; early_loss = true }

abbrev late : Producer
late = connect_done (some hello) (store_connected lost)

abbrev told : Producer
told = record late { link = absent; close_closed = true }

abbrev cleaned : Producer
cleaned = clean_up hello (record (begin_cleanup told) { waiting = [] })

abbrev gone : Producer
gone = record cleaned { router = off }

abbrev again : Producer
again = record gone { entered = hello ∷ []; concurrent_producers = gone.concurrent_producers + 1 }

abbrev blocked : Producer
blocked = record again { entered = []; waiting = hello ∷ again.waiting }

reach_gone : Reach new_producer gone
unfolding begin_cleanup finish_all connect_done store_connected clean_up finish on_conn_io_error
    close
reach_gone =
    let reach_told : Reach new_producer told =
      Reach.step
        (Reach.step
          (Reach.step (Reach.step reach_dialled (Step.lose_early dialled (some hello) refl refl))
            (Step.store_state lost (some hello) refl refl))
          (Step.connect (store_connected lost) (some hello) refl refl))
        (Step.on_conn_close late (inl refl) refl) in
    Reach.step
      (Reach.step (Reach.step reach_told (Step.leave_router told refl refl))
        (Step.clean_one (begin_cleanup told) [] [] hello refl refl))
      (Step.clean_done cleaned refl refl)

reach_blocked : Reach new_producer blocked
unfolding begin_cleanup finish_all connect_done store_connected clean_up finish
reach_blocked =
    Reach.step (Reach.step reach_gone (Step.enter gone hello))
      (Step.find_connected again [] [] hello refl refl)

blocked_stays :
    (blocked.router ≡ off) × (blocked.waiting ≡ hello ∷ []) × (blocked.exit_closed ≡ false)
unfolding begin_cleanup finish_all connect_done store_connected clean_up finish
blocked_stays = (refl, refl, refl)

Reach-IsOrdered_example :
    (answered done.answers ++ done.transactions ≡ done.accepted)
    × (done.delivered ≡ deliverable done.answers)
    × ((done.router ≡ running) ⊎ (answered done.answers ≡ done.accepted))
Reach-IsOrdered_example = Reach-IsOrdered done reach_done

Reach-IsAttended_example :
    (done.concurrent_producers
      ≡ length done.entered + (length done.waiting + dialling_count done.dialling))
    × ((done.router ≢ off) ⊎ (done.waiting ≡ []) ⊎ IsStarting done ⊎ IsExcused done)
Reach-IsAttended_example = Reach-IsAttended done reach_done

Reach-IsConserved_example :
    on_the_way (is_call 1) done + count (is_call 1) done.transactions + at_the_end (is_call 1) done
    ≡ 1
unfolding reach_done reach_dialled
Reach-IsConserved_example = Reach-IsConserved reach_done (is_call 1)

send_command-Says_example : count (is_call 1) done.accepted ≡ 1
unfolding reach_done reach_dialled send_command
send_command-Says_example =
    send_command-Says reach_done 1 (some (protocol (codes "E_BAD_TOPIC"))) refl refl

send_command_returns_example : (v : Option Error) × (send_command 1 gone ≡ some v)
unfolding reach_gone reach_dialled publish_sync
send_command_returns_example = send_command_returns reach_gone 1 (omega arith) refl refl (λ e. cc)
