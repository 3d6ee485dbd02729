-- ===== src/Producer/Senders.antt =====
-- producer.go: a call of sendCommandAsync that blocks has someone to unblock it.
use go_nsq.Base.{◌+◌, ◌≡◌, ◌≢◌, ◌⊎◌, inl, inr, refl, ap, [], ◌++◌, arith, length}
use mathlib.Core.Path.{subst}
use go_nsq.Producer.Order.{stop_kept, pop_transaction-some}
use go_nsq.Producer.{
  Producer, off, cleaning, finish, begin_cleanup, clean_up, refuse, connect_done, store_connected,
  on_conn_io_error, check_connect, Step, Reach, new_producer,
}
use go_nsq.Producer.Attendance.{
  IsStarting, IsExcused, dialling_count, IsLive, split_length, settle, close-IsLive, length_zero,
  must_dial, must_dial_ping, queued-length, route-IsLive, finish_all-IsLive, failed-IsLive,
  early-IsLive,
}

Step-IsLive : {p q : Producer} → Step p q → IsLive p → IsLive q
Step-IsLive (Step.enter p t) v = record {
  counted = omega (arith, v.counted);
  routed = v.routed;
  channel = v.channel;
  linked = v.linked;
  dialled = v.dialled;
  attended = v.attended;
  quiet = v.quiet;
}
Step-IsLive (Step.find_connected p xs ys t e on) v = record {
  counted = omega (arith, v.counted, split_length xs ys t p.entered e);
  routed = v.routed;
  channel = v.channel;
  linked = v.linked;
  dialled = v.dialled;
  attended = ground (arith, on, v.routed);
  quiet = v.quiet;
}
Step-IsLive (Step.connect_connected p xs ys t e free on) v = record {
  counted = omega (arith, v.counted, split_length xs ys t p.entered e);
  routed = v.routed;
  channel = v.channel;
  linked = v.linked;
  dialled = v.dialled;
  attended = unfold check_connect in ground (arith, on, v.routed);
  quiet = v.quiet;
}
Step-IsLive (Step.connect_refused p xs ys t x e free on) v =
    unfold refuse in
    record {
      counted = omega (arith, v.counted, split_length xs ys t p.entered e);
      routed = v.routed;
      channel = v.channel;
      linked = v.linked;
      dialled = v.dialled;
      attended = v.attended;
      quiet = v.quiet;
    }
Step-IsLive (Step.connect_fails p xs ys t n e free on) v =
    unfold refuse in
    record {
      counted = omega (arith, v.counted, split_length xs ys t p.entered e);
      routed = v.routed;
      channel = v.channel;
      linked = v.linked;
      dialled = v.dialled;
      attended = v.attended;
      quiet = v.quiet;
    }
Step-IsLive (Step.dial p xs ys t e free on still) v =
    let down = must_dial p on in
    record {
      counted = omega (arith, v.counted, split_length xs ys t p.entered e, ap dialling_count free);
      routed = inl down;
      channel = inl down;
      linked = inl down;
      dialled = inr (inl down, inl refl);
      attended = ground (arith, free, v.attended);
      quiet = inr still;
    }
Step-IsLive (Step.dial_ping p free on still) v =
    let down = must_dial_ping p on in
    record {
      counted = omega (arith, v.counted, ap dialling_count free);
      routed = inl down;
      channel = inl down;
      linked = inl down;
      dialled = inr (inl down, inl refl);
      attended = ground (arith, free, v.attended);
      quiet = inr still;
    }
Step-IsLive (Step.store_state p t e fresh) v =
    unfold store_connected in
    record {
      counted = v.counted;
      routed = inr (inr (inl (refl, (λ x. cc))));
      channel = inr (inr (inl (refl, (λ x. cc))));
      linked = inr (ground (arith, e, v.dialled));
      dialled = inr (inr refl, ground (arith, e, v.dialled));
      attended = inr (inr (inl (refl, (λ x. cc))));
      quiet = v.quiet;
    }
Step-IsLive (Step.connect p t e on) v =
    unfold connect_done in
    record {
      counted = omega (arith, v.counted, ap dialling_count e, queued-length t p.waiting);
      routed = inr (inl refl);
      channel = inr (inl refl);
      linked = inr (ground (arith, e, v.dialled));
      dialled = inl refl;
      attended = inl (λ e. cc);
      quiet = inl refl;
    }
Step-IsLive (Step.take_transaction p xs ys t fails w on) v =
    route-IsLive t fails (record p { waiting = xs ++ ys }) on
      (record {
        counted = omega (arith, v.counted, split_length xs ys t p.waiting w);
        routed = v.routed;
        channel = v.channel;
        linked = v.linked;
        dialled = v.dialled;
        attended = inl (λ e. cc);
        quiet = v.quiet;
      })
Step-IsLive (Step.send_stopped p xs ys t w gone) v =
    unfold refuse in
    record {
      counted = omega (arith, v.counted, split_length xs ys t p.waiting w);
      routed = v.routed;
      channel = v.channel;
      linked = v.linked;
      dialled = v.dialled;
      attended = inr (inr (inr (inl gone)));
      quiet = v.quiet;
    }
Step-IsLive (Step.respond p q frame_type body on popped) v =
    let (t, ts, _, made) = pop_transaction-some frame_type body p q p.transactions refl popped in
    subst IsLive made (unfold finish in settle p ts _ _ v)
Step-IsLive (Step.leave_router p on told) v =
    let left : IsLive (record p { router = cleaning; transactions = [] }) = record {
      counted = v.counted;
      routed = ground (arith, told, v.channel);
      channel = v.channel;
      linked = v.linked;
      dialled = v.dialled;
      attended = inl (λ e. cc);
      quiet = ground (arith, on, v.quiet);
    } in
    unfold begin_cleanup in
    finish_all-IsLive p.transactions (record p { router = cleaning; transactions = [] }) left
Step-IsLive (Step.clean_one p xs ys t w on) v =
    unfold clean_up finish in
    record {
      counted = omega (arith, v.counted, split_length xs ys t p.waiting w);
      routed = v.routed;
      channel = v.channel;
      linked = v.linked;
      dialled = v.dialled;
      attended = inl (λ e. cc);
      quiet = v.quiet;
    }
Step-IsLive (Step.clean_done p on idle) v = record {
  counted = v.counted;
  routed = ground (arith, on, v.routed);
  channel = v.channel;
  linked = v.linked;
  dialled = v.dialled;
  attended = inr (inl (length_zero p.waiting (omega (arith, v.counted))));
  quiet = inr refl;
}
Step-IsLive (Step.reset p waits gone) v = record {
  counted = v.counted;
  routed = inl refl;
  channel = inl refl;
  linked = inl refl;
  dialled = ground (arith, v.dialled);
  attended = v.attended;
  quiet = v.quiet;
}
Step-IsLive (Step.lose p up free) v = unfold on_conn_io_error in failed-IsLive p free v
Step-IsLive (Step.lose_early p t up e) v = unfold on_conn_io_error in early-IsLive p v
Step-IsLive (Step.on_conn_close p down free) v = record {
  counted = v.counted;
  routed = v.routed;
  channel = ground (arith, down, v.linked);
  linked = ground (arith, down, v.linked);
  dialled = inl free;
  attended = v.attended;
  quiet = v.quiet;
}
Step-IsLive (Step.stop_producer p free) v = stop_kept IsLive p v (
    close-IsLive _ free (record {
      counted = v.counted;
      routed = inr (inr (inr (inl refl)));
      channel = inr (inr (inr (inl refl)));
      linked = inr (inr (inl refl));
      dialled = inl free;
      attended = inr (inr (inr (inl refl)));
      quiet = inl free;
    }))

live : {p : Producer} → Reach new_producer p → IsLive p
live Reach.start = record {
  counted = refl;
  routed = inl refl;
  channel = inl refl;
  linked = inl refl;
  dialled = inl refl;
  attended = inr (inl refl);
  quiet = inl refl;
}
live (Reach.step reach s) = Step-IsLive s (live reach)

-- In every state that a new producer can reach, concurrentProducers counts the calls on their
-- way, and while a call blocks on transactionChan the router runs or cleans up, or connect has
-- stored the state and is about to start it, unless the producer was stopped or a connection failed
-- while connect ran. No connect begins while a router runs.
pub Reach-IsAttended :
    (p : Producer)
    → Reach new_producer p
    → (p.concurrent_producers ≡ length p.entered + (length p.waiting + dialling_count p.dialling))
      × ((p.router ≢ off) ⊎ (p.waiting ≡ []) ⊎ IsStarting p ⊎ IsExcused p)
Reach-IsAttended p reach = let v = live reach in (v.counted, v.attended)
