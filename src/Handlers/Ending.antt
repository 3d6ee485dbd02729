-- ===== src/Handlers/Ending.antt =====
-- consumer.go: the channels that Stop closes are closed once.
use go_nsq.Base.{ℕ, ◌+◌, ◌-◌, ◌≤◌, ◌≡◌, ◌≢◌, ◌⊎◌, inl, inr, refl, Bool, true, false, arith, ◌==◌}
use go_nsq.Handlers.{
  Running, Loop, jittering, ended, polling, lookupd_wakes, start_lookupd_loop, lookupd_round,
  lookupd_ends, rdy_loop_ends, stop_handlers, exit, stop, conn_closed, handler_ends, Step, Reach,
  new_running,
}
use go_nsq.Handlers.Loops.{if_kept, loops}

abbrev ClosedOnce : Running → Type 0
ClosedOnce r =
    ((r.stop_handler_used ≡ false) × (r.closed_count ≡ 0))
    ⊎ ((r.stop_handler_used ≡ true) × (r.closed_count ≡ 1))

abbrev ExitedOnce : Running → Type 0
ExitedOnce r =
    ((r.exit_handler_used ≡ false)
      × (r.exit_count ≡ 0)
      × (r.exit_waits ≡ false)
      × (r.stopped_count ≡ 0))
    ⊎ ((r.exit_handler_used ≡ true)
        × (r.exit_count ≡ 1)
        × (((r.exit_waits ≡ true) × (r.stopped_count ≡ 0))
            ⊎ ((r.exit_waits ≡ false) × (r.stopped_count ≡ 1))))

pub record IsEnding (r : Running) : Type 0 where
  pub closed_once : ClosedOnce r
  pub exited_once : ExitedOnce r
  pub untouched :
      (r.stop_flag ≡ true) ⊎ ((r.closed_count ≡ 0) × (r.exit_count ≡ 0) × (r.exit_timer ≡ false))
  pub under_way :
      (r.stop_flag ≡ false) ⊎ (r.closed_count ≡ 1) ⊎ (r.exit_timer ≡ true) ⊎ (r.exit_count ≡ 1)

stop_handlers-IsEnding :
    (r : Running) → r.stop_flag ≡ true → ClosedOnce r → ExitedOnce r → IsEnding (stop_handlers r)
unfolding stop_handlers
stop_handlers-IsEnding r on closed exited =
    if_kept IsEnding r.stop_handler_used
      (λ used. record {
        closed_once = closed;
        exited_once = exited;
        untouched = inl on;
        under_way = inr (inl (ground (arith, used, closed)));
      })
      (λ unused. record {
        closed_once = inr (refl, ground (arith, unused, closed));
        exited_once = exited;
        untouched = inl on;
        under_way = inr (inl (ground (arith, unused, closed)));
      })

exit-IsEnding : (r : Running) → r.stop_flag ≡ true → ClosedOnce r → ExitedOnce r → IsEnding (exit r)
unfolding exit
exit-IsEnding r on closed exited =
    if_kept IsEnding r.exit_handler_used
      (λ used. record {
        closed_once = closed;
        exited_once = exited;
        untouched = inl on;
        under_way = inr (inr (inr (ground (arith, used, exited))));
      })
      (λ unused. record {
        closed_once = closed;
        exited_once =
            inr (refl, ground (arith, unused, exited), inl (refl, ground (arith, unused, exited)));
        untouched = inl on;
        under_way = inr (inr (inr (ground (arith, unused, exited))));
      })

-- A Stop that finds connections arms the timer.
armed : (r : Running) → IsEnding r → IsEnding (record r { stop_flag = true; exit_timer = true })
armed r v = record {
  closed_once = v.closed_once;
  exited_once = v.exited_once;
  untouched = inl refl;
  under_way = inr (inr (inl refl));
}

stop-IsEnding : (r : Running) → IsEnding r → IsEnding (stop r)
unfolding stop
stop-IsEnding r v =
    if_kept IsEnding r.stop_flag (λ _. v)
      (λ _.
        if_kept IsEnding (r.conns == 0)
          (λ _.
            stop_handlers-IsEnding (record r { stop_flag = true }) refl v.closed_once v.exited_once)
          (λ _. armed r v))

-- The numbers of connections and handlers do not matter.
recount :
    (r : Running) (handlers conns : ℕ) (connected : Bool)
    → IsEnding r
    → IsEnding (record r { handlers = handlers; conns = conns; connected_flag = connected })
recount r handlers conns connected v = record {
  closed_once = v.closed_once;
  exited_once = v.exited_once;
  untouched = v.untouched;
  under_way = v.under_way;
}

loops_move :
    (r : Running) (rdy lookupd : Loop) (queries : ℕ)
    → IsEnding r
    → IsEnding (record r { rdy_loop = rdy; lookupd_loop = lookupd; queries = queries })
loops_move r rdy lookupd queries v = record {
  closed_once = v.closed_once;
  exited_once = v.exited_once;
  untouched = v.untouched;
  under_way = v.under_way;
}

conn_closed-IsEnding : (left : ℕ) (r : Running) → IsEnding r → IsEnding (conn_closed left r)
unfolding conn_closed
conn_closed-IsEnding left r v =
    let counted = recount r r.handlers left r.connected_flag v in
    if_kept IsEnding r.stop_flag
      (λ on.
        if_kept IsEnding (left == 0)
          (λ _.
            stop_handlers-IsEnding (record r { conns = left }) on counted.closed_once
              counted.exited_once)
          (λ _. counted))
      (λ _. counted)

handler_ends-IsEnding : (r : Running) → r.stop_flag ≡ true → IsEnding r → IsEnding (handler_ends r)
unfolding handler_ends
handler_ends-IsEnding r on v =
    if_kept IsEnding (r.handlers - 1 == 0)
      (λ _. exit-IsEnding (record r { handlers = r.handlers - 1 }) on v.closed_once v.exited_once)
      (λ _. recount r (r.handlers - 1) r.conns r.connected_flag v)

Step-IsEnding : {p q : Running} → Step p q → IsEnding p → IsEnding q
Step-IsEnding (Step.add_handlers r n _) v = recount r (r.handlers + n) r.conns r.connected_flag v
Step-IsEnding (Step.set_connected r) v = recount r r.handlers r.conns true v
Step-IsEnding (Step.add_conn r _) v = recount r r.handlers (r.conns + 1) r.connected_flag v
Step-IsEnding (Step.close_conn r left _) v = conn_closed-IsEnding left r v
Step-IsEnding (Step.stop_consumer r) v = stop-IsEnding r v
Step-IsEnding (Step.end_handler r shut some) v =
    handler_ends-IsEnding r (ground (arith, shut, v.untouched)) v
Step-IsEnding (Step.timer_fires r on) v =
    exit-IsEnding (record r { exit_timer = false }) (ground (arith, on, v.untouched)) v.closed_once
      v.exited_once
Step-IsEnding (Step.first_lookupd r _ _) v =
    unfold start_lookupd_loop in loops_move r r.rdy_loop jittering (r.queries + 1) v
Step-IsEnding (Step.lookupd_wakes_up r _) v =
    unfold lookupd_round in loops_move r r.rdy_loop (lookupd_wakes r.lookupd_loop).0 _ v
Step-IsEnding (Step.lookupd_exits r _ _) v =
    unfold lookupd_ends in loops_move r r.rdy_loop ended r.queries v
Step-IsEnding (Step.rdy_loop_exits r _ _) v =
    unfold rdy_loop_ends in loops_move r ended r.lookupd_loop r.queries v
Step-IsEnding (Step.close_stop_chan r waits _ _) v = record {
  closed_once = v.closed_once;
  exited_once = ground (arith, waits, v.exited_once);
  untouched = v.untouched;
  under_way = v.under_way;
}

ending : {r : Running} → Reach new_running r → IsEnding r
ending Reach.start = record {
  closed_once = inl (refl, refl);
  exited_once = inl (refl, refl, refl, refl);
  untouched = inr (refl, refl, refl);
  under_way = inl refl;
}
ending (Reach.step reach s) = Step-IsEnding s (ending reach)

-- In every state that a new consumer can reach, each of the channels of messages, of exit and of
-- StopChan has been closed at most once, StopChan only after exit, all of them only after Stop;
-- after Stop the channel of messages is closed, or the timer is armed, or exit has begun; the two
-- loops end only after exit, and the rdyLoop has ended when StopChan is closed.
pub Reach-IsStopping :
    (r : Running)
    → Reach new_running r
    → (r.closed_count ≤ 1)
      × (r.exit_count ≤ 1)
      × (r.stopped_count ≤ r.exit_count)
      × ((r.stop_flag ≡ true) ⊎ ((r.closed_count ≡ 0) × (r.exit_count ≡ 0)))
      × ((r.stop_flag ≡ false) ⊎ (r.closed_count ≡ 1) ⊎ (r.exit_timer ≡ true) ⊎ (r.exit_count ≡ 1))
      × ((r.rdy_loop ≡ polling) ⊎ ((r.rdy_loop ≡ ended) × (1 ≤ r.exit_count)))
      × ((r.lookupd_loop ≢ ended) ⊎ (1 ≤ r.exit_count))
      × ((r.stopped_count ≡ 0) ⊎ (r.rdy_loop ≡ ended))
Reach-IsStopping r reach =
    let v = ending reach in
    let w = loops reach in
    (
      ground (arith, v.closed_once),
      ground (arith, v.exited_once),
      ground (arith, v.exited_once),
      ground (arith, v.untouched),
      v.under_way,
      w.rdy,
      w.lookupd,
      w.joined,
    )
