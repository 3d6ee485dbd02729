-- ===== src/Handlers/Loops.antt =====
-- consumer.go: rdyLoop and lookupdLoop run until exit, and StopChan waits for them.
use go_nsq.Base.{
  ℕ, ◌-◌, ◌==◌, ◌≤◌, ◌≡◌, ◌≢◌, ◌⊎◌, inl, inr, refl, Bool, true, false, arith, if◌then◌else◌,
}
use go_nsq.Handlers.{
  Running, Loop, unstarted, jittering, polling, ended, lookupd_wakes, start_lookupd_loop,
  lookupd_round, lookupd_ends, rdy_loop_ends, stop_handlers, exit, stop, conn_closed, handler_ends,
  Step, Reach, new_running,
}

pub record IsLooping (r : Running) : Type 0 where
  pub rdy : (r.rdy_loop ≡ polling) ⊎ ((r.rdy_loop ≡ ended) × (1 ≤ r.exit_count))
  pub lookupd : (r.lookupd_loop ≢ ended) ⊎ (1 ≤ r.exit_count)
  pub joined : (r.stopped_count ≡ 0) ⊎ (r.rdy_loop ≡ ended)

-- Three fields do not change, and exit is not taken back.
same_loops :
    {r : Running} (q : Running)
    → IsLooping r
    → q.rdy_loop ≡ r.rdy_loop
    → q.lookupd_loop ≡ r.lookupd_loop
    → q.stopped_count ≡ r.stopped_count
    → r.exit_count ≤ q.exit_count
    → IsLooping q
same_loops q v rdy lookupd stopped more = record {
  rdy =
      rw rdy
        (elim v.rdy [ inl on ↦ inl on | inr (over, some) ↦ inr (over, omega (arith, some, more)) ]);
  lookupd =
      rw lookupd (elim v.lookupd [ inl on ↦ inl on | inr some ↦ inr (omega (arith, some, more)) ]);
  joined = rw (rdy, stopped) v.joined;
}

pub if_kept {κ} :
    (P : Running → Type κ) (b : Bool) {p q : Running}
    → (b ≡ true → P p)
    → (b ≡ false → P q)
    → P (if b then p else q)
if_kept P true x y = x refl
if_kept P false x y = y refl

-- What leaves the loops alone.
abbrev Beside : Running → Running → Type 0
Beside r q =
    (q.rdy_loop ≡ r.rdy_loop)
    × (q.lookupd_loop ≡ r.lookupd_loop)
    × (q.stopped_count ≡ r.stopped_count)
    × (r.exit_count ≤ q.exit_count)

beside-IsLooping : {r : Running} (q : Running) → Beside r q → IsLooping r → IsLooping q
beside-IsLooping q (rdy, lookupd, stopped, more) v = same_loops q v rdy lookupd stopped more

stop_handlers-Beside : (r : Running) → Beside r (stop_handlers r)
unfolding stop_handlers
stop_handlers-Beside r =
    if_kept (Beside r) r.stop_handler_used (λ _. (refl, refl, refl, omega arith))
      (λ _. (refl, refl, refl, omega arith))

exit-Beside : (r : Running) → Beside r (exit r)
unfolding exit
exit-Beside r =
    if_kept (Beside r) r.exit_handler_used (λ _. (refl, refl, refl, omega arith))
      (λ _. (refl, refl, refl, omega arith))

stop-Beside : (r : Running) → Beside r (stop r)
unfolding stop
stop-Beside r =
    if_kept (Beside r) r.stop_flag (λ _. (refl, refl, refl, omega arith))
      (λ _.
        if_kept (Beside r) (r.conns == 0)
          (λ _. stop_handlers-Beside (record r { stop_flag = true }))
          (λ _. (refl, refl, refl, omega arith)))

conn_closed-Beside : (left : ℕ) (r : Running) → Beside r (conn_closed left r)
unfolding conn_closed
conn_closed-Beside left r =
    if_kept (Beside r) r.stop_flag
      (λ _.
        if_kept (Beside r) (left == 0) (λ _. stop_handlers-Beside (record r { conns = left }))
          (λ _. (refl, refl, refl, omega arith)))
      (λ _. (refl, refl, refl, omega arith))

handler_ends-Beside : (r : Running) → Beside r (handler_ends r)
unfolding handler_ends
handler_ends-Beside r =
    if_kept (Beside r) (r.handlers - 1 == 0)
      (λ _. exit-Beside (record r { handlers = r.handlers - 1 }))
      (λ _. (refl, refl, refl, omega arith))

woken : (l : Loop) → (lookupd_wakes l).0 ≡ ended → l ≡ ended
unfolding lookupd_wakes
woken unstarted e = absurd (cc)
woken jittering e = absurd (cc)
woken polling e = absurd (cc)
woken ended e = refl

Step-IsLooping : {p q : Running} → Step p q → IsLooping p → IsLooping q
Step-IsLooping (Step.add_handlers r n _) v = same_loops _ v refl refl refl (omega arith)
Step-IsLooping (Step.set_connected r) v = same_loops _ v refl refl refl (omega arith)
Step-IsLooping (Step.add_conn r _) v = same_loops _ v refl refl refl (omega arith)
Step-IsLooping (Step.close_conn r left _) v = beside-IsLooping _ (conn_closed-Beside left r) v
Step-IsLooping (Step.stop_consumer r) v = beside-IsLooping _ (stop-Beside r) v
Step-IsLooping (Step.end_handler r _ _) v = beside-IsLooping _ (handler_ends-Beside r) v
Step-IsLooping (Step.timer_fires r _) v =
    beside-IsLooping _ (exit-Beside (record r { exit_timer = false })) v
Step-IsLooping (Step.first_lookupd r _ _) v =
    unfold start_lookupd_loop in record { rdy = v.rdy; lookupd = inl (λ e. cc); joined = v.joined }
Step-IsLooping (Step.lookupd_wakes_up r on) v =
    unfold lookupd_round in
    record {
      rdy = v.rdy;
      lookupd = elim v.lookupd [
        | inl other ↦ inl (λ e. other (woken r.lookupd_loop e))
        | inr some ↦ inr some
      ];
      joined = v.joined;
    }
Step-IsLooping (Step.lookupd_exits r some _) v =
    unfold lookupd_ends in
    record { rdy = v.rdy; lookupd = inr (omega (arith, some)); joined = v.joined }
Step-IsLooping (Step.rdy_loop_exits r some _) v =
    unfold rdy_loop_ends in
    record { rdy = inr (refl, omega (arith, some)); lookupd = v.lookupd; joined = inr refl }
Step-IsLooping (Step.close_stop_chan r _ quiet _) v = record {
  rdy = v.rdy;
  lookupd = v.lookupd;
  joined = inr (elim v.rdy [ inl on ↦ absurd (cc) | inr (over, _) ↦ over ]);
}

pub loops : {r : Running} → Reach new_running r → IsLooping r
loops Reach.start = record { rdy = inl refl; lookupd = inl (λ e. cc); joined = inl refl }
loops (Reach.step reach s) = Step-IsLooping s (loops reach)
