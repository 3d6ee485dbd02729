-- ===== src/Handlers/Tests.antt =====
-- consumer.go: handled messages, and consumers that stop.
use go_nsq.Base.{inr, ◌+◌, ◌≤◌, ◌≡◌, ◌≢◌, ◌⊎◌, refl, true, false, [], ◌∷◌, arith, codes}
use go_nsq.Base.Int.{pos, negsuc}
use go_nsq.Message.{Message, on_finish, on_requeue, on_touch}
use go_nsq.Message.Response.{touches, disables, requeues}
use go_nsq.Handlers.{
  jittering, polling, ended, lookupd_wakes, lookupd_round, start_lookupd_loop, rdy_loop_ends,
  Handling, handle, Running, new_running, stop, stop_handlers, conn_closed, handler_ends, exit,
  Step, Reach,
}
use go_nsq.Handlers.Verdict.{without_touches, verdict, handle-verdict}
use go_nsq.Handlers.Ending.{Reach-IsStopping}

abbrev sample : Message
sample = record {
  id = codes "0123456789abcdef";
  body = codes "hi";
  timestamp = pos 5;
  attempts = 3;
  nsqd_address = [];
  auto_response_disabled = 0;
  responded = 0;
}

abbrev failing : Handling
failing = record { logged = []; made = touches ∷ []; failed = true }

error_requeues : (handle 5 failing sample).1 ≡ on_touch ∷ on_requeue (negsuc 0) true ∷ []
unfolding handle go_nsq.Message.Response.calls go_nsq.Message.Response.call go_nsq.Message.touch
    go_nsq.Message.is_auto_response_disabled
error_requeues = refl

tired_finishes : (handle 2 failing sample).1 ≡ on_finish ∷ []
unfolding handle go_nsq.Message.finish go_nsq.Message.Response.calls
tired_finishes = refl

-- LogFailedMessage may requeue the message: then FIN is silent.
tired_requeues :
    (handle 2 (record failing { logged = requeues (pos 7) ∷ [] }) sample).1
    ≡ on_requeue (pos 7) true ∷ []
unfolding handle go_nsq.Message.Response.calls go_nsq.Message.Response.call go_nsq.Message.finish
tired_requeues = refl

disabled_waits :
    (handle 5 (record { logged = []; made = disables ∷ []; failed = true }) sample).1 ≡ []
unfolding handle go_nsq.Message.Response.calls go_nsq.Message.Response.call
    go_nsq.Message.is_auto_response_disabled go_nsq.Message.disable_auto_response
disabled_waits = refl

handle-verdict_example : without_touches (handle 5 failing sample).1 ≡ verdict 5 failing sample
handle-verdict_example = handle-verdict 5 failing sample refl

-- No handler was added: the channel of messages is closed, and nothing leads on to StopChan.
abbrev idle : Running
idle = stop new_running

idle_for_ever :
    (idle.closed_count ≡ 1)
    × (idle.handlers ≡ 0)
    × (idle.exit_count ≡ 0)
    × (idle.exit_timer ≡ false)
unfolding stop
idle_for_ever = (refl, refl, refl, refl)

-- A connection that ConnectToNSQD began before Stop enters the map after it: the channel that its
-- messages go to is closed.
abbrev ready : Running
ready = record new_running { handlers = 1; connected_flag = true }

abbrev late : Running
late = record (stop ready) { conns = (stop ready).conns + 1 }

reach_ready : Reach new_running ready
reach_ready =
    Reach.step (Reach.step Reach.start (Step.add_handlers new_running 1 refl))
      (Step.set_connected (record new_running { handlers = 1 }))

reach_late : Reach new_running late
unfolding stop
reach_late =
    Reach.step (Reach.step reach_ready (Step.stop_consumer ready)) (Step.add_conn (stop ready) refl)

late_conn : (late.conns ≡ 1) × (late.closed_count ≡ 1)
unfolding stop
late_conn = (refl, refl)

abbrev joined : Running
joined = record ready { conns = 1 }

abbrev stopping : Running
stopping = stop joined

abbrev drained : Running
drained = conn_closed 0 stopping

abbrev handled : Running
handled = handler_ends drained

abbrev unlooped : Running
unlooped = rdy_loop_ends handled

abbrev stopped : Running
stopped = record unlooped { exit_waits = false; stopped_count = unlooped.stopped_count + 1 }

reach_stopped : Reach new_running stopped
unfolding stop stop_handlers conn_closed handler_ends exit rdy_loop_ends
reach_stopped =
    let reach_stopping : Reach new_running stopping =
      Reach.step (Reach.step reach_ready (Step.add_conn ready refl)) (Step.stop_consumer joined) in
    Reach.step
      (Reach.step
        (Reach.step (Reach.step reach_stopping (Step.close_conn stopping 0 (inr refl)))
          (Step.end_handler drained (omega arith) (omega arith)))
        (Step.rdy_loop_exits handled (omega arith) refl))
      (Step.close_stop_chan unlooped refl refl refl)

-- ConnectToNSQLookupd passed its tests before Stop, and starts its loop when all is over.
late_loop :
    Reach new_running (start_lookupd_loop stopped)
    × (stopped.stopped_count ≡ 1)
    × ((start_lookupd_loop stopped).lookupd_loop ≡ jittering)
unfolding stop stop_handlers conn_closed handler_ends exit rdy_loop_ends start_lookupd_loop
late_loop = (Reach.step reach_stopped (Step.first_lookupd stopped refl refl), refl, refl)

polls : (lookupd_round (lookupd_round (start_lookupd_loop ready))).queries ≡ 2
unfolding lookupd_round lookupd_wakes start_lookupd_loop
polls = refl

Reach-IsStopping_example :
    (stopped.closed_count ≤ 1)
    × (stopped.exit_count ≤ 1)
    × (stopped.stopped_count ≤ stopped.exit_count)
    × ((stopped.stop_flag ≡ true) ⊎ ((stopped.closed_count ≡ 0) × (stopped.exit_count ≡ 0)))
    × ((stopped.stop_flag ≡ false)
        ⊎ (stopped.closed_count ≡ 1)
        ⊎ (stopped.exit_timer ≡ true)
        ⊎ (stopped.exit_count ≡ 1))
    × ((stopped.rdy_loop ≡ polling) ⊎ ((stopped.rdy_loop ≡ ended) × (1 ≤ stopped.exit_count)))
    × ((stopped.lookupd_loop ≢ ended) ⊎ (1 ≤ stopped.exit_count))
    × ((stopped.stopped_count ≡ 0) ⊎ (stopped.rdy_loop ≡ ended))
Reach-IsStopping_example = Reach-IsStopping stopped reach_stopped
