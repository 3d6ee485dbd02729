-- ===== src/Consumer/Resumption.antt =====
-- consumer.go: what the timer of a backoff does.
use go_nsq.Base.{
  ◌+◌, ◌-◌, ◌%◌, ◌≤◌, ◌<◌, ◌≡◌, refl, ap, ◌⊎◌, inl, inr, true, false, Option, none, some, arith,
  Bool-cases, ◌==◌, length, get_elem?,
}
use go_nsq.Base.Int.{pos, pos_part}
use go_nsq.Consumer.{Consumer, RdyError, in_backoff_timeout, draw_next, drawn}
use go_nsq.Consumer.Conns.{Addr, addrs}
use go_nsq.Consumer.Rdy.{update_rdy}
use go_nsq.Consumer.Account.{Inv, Inv-transfer, cap, total}
use go_nsq.Consumer.Bounds.{Bounded, Bounded-refl, Bounded-trans, Bounded-mono}
use go_nsq.Consumer.Budget.{update_rdy-Bounded}
use go_nsq.Consumer.Levels.{Armed}
use go_nsq.Consumer.Redistribution.{draw_next-Bounded}
use native.Mathlib.Decide.{dec_lt}
use go_nsq.Consumer.Backoff.{second, backoff, resumed, resume_at, resume, resume_fires}

-- One timer's work: the account is kept, one message at most is let through, and the consumer is out
-- of the wait or has another timer.
abbrev pub Resumed : Consumer → Consumer → Type 0
Resumed r r' =
    Inv r'
    × Armed r'
    × (cap r' ≡ cap r)
    × (r'.backoff_counter ≡ r.backoff_counter)
    × (total r' ≤ total r + 1)
    × ((total r' ≤ total r) ⊎ (total r' ≤ cap r))
    × (r'.config ≡ r.config)

end_wait : {r s : Consumer} → Bounded r s 1 → Resumed r (record s { backoff_duration = pos 0 })
unfolding in_backoff_timeout
end_wait b = (
  Inv-transfer _ b.inv refl refl refl,
  inl refl,
  ap pos_part b.kept.cap_kept,
  b.kept.counter_kept,
  b.grows,
  b.capped,
  b.kept.config_kept,
)

wait_on : {r s : Consumer} → Bounded r s 1 → Resumed r (backoff second s)
unfolding backoff
wait_on b = (
  Inv-transfer _ b.inv refl refl refl,
  inr (omega arith),
  ap pos_part b.kept.cap_kept,
  b.kept.counter_kept,
  b.grows,
  b.capped,
  b.kept.config_kept,
)

resumed-Resumed :
    (r s : Consumer) (o : Option RdyError) → Bounded r s 1 → Resumed r (resumed (s, o))
unfolding resumed
resumed-Resumed r s none b = end_wait b
resumed-Resumed r s (some e) b = wait_on b

resume_at-Resumed : (r s : Consumer) (o : Option Addr) → Bounded r s 0 → Resumed r (resume_at o s)
unfolding resume_at
resume_at-Resumed r s none b = wait_on (Bounded-mono 0 1 (omega arith) b)
resume_at-Resumed r s (some a) b =
    resumed-Resumed r _ (update_rdy a (pos 1) s).1
      (Bounded-trans 0 1 b (update_rdy-Bounded a 1 s b.inv))

resume_stopping :
    (r : Consumer) → r.stop_flag ≡ true → resume r ≡ record r { backoff_duration = pos 0 }
unfolding resume
resume_stopping r h = ground arith

resume_alone :
    (r : Consumer)
    → r.stop_flag ≡ false
    → (length r.connections == 0) ≡ true
    → resume r ≡ backoff second r
unfolding resume
resume_alone r h e = ground arith

resume_draws :
    (r : Consumer)
    → r.stop_flag ≡ false
    → (length r.connections == 0) ≡ false
    → resume r
      ≡ resume_at (get_elem? (addrs r.connections) (drawn r % length r.connections)) (draw_next r)
unfolding resume
resume_draws r h e = ground arith

resume-Resumed : (r : Consumer) → Inv r → Resumed r (resume r)
resume-Resumed r v = elim (Bool-cases r.stop_flag) [
  | inl stopping ↦
      rw (resume_stopping r stopping)
        (end_wait (Bounded-mono 0 1 (omega arith) (Bounded-refl r 0 v)))
  | inr running ↦ elim (Bool-cases (length r.connections == 0)) [
    | inl alone ↦
        rw (resume_alone r running alone)
          (wait_on (Bounded-mono 0 1 (omega arith) (Bounded-refl r 0 v)))
    | inr several ↦ rw (resume_draws r running several) (
        resume_at-Resumed r (draw_next r)
          (get_elem? (addrs r.connections) (drawn r % length r.connections))
          (draw_next-Bounded r v))
  ]
]

resume_fires_idle : (r : Consumer) → r.resume_timers ≡ 0 → resume_fires r ≡ r
unfolding resume_fires
resume_fires_idle r h = ground arith

resume_fires_armed :
    (r : Consumer)
    → 0 < r.resume_timers
    → resume_fires r ≡ resume (record r { resume_timers = r.resume_timers - 1 })
unfolding resume_fires
resume_fires_armed r h = ground arith

-- On a consumer whose account holds and whose wait, if any, has a timer, a timer that fires keeps
-- both, the configuration and the backoff level, raises the total by 1 at most and not above max-in-flight, and
-- leaves the consumer out of the wait or with another timer.
pub resume_fires-Resumed : (r : Consumer) → Inv r → Armed r → Resumed r (resume_fires r)
resume_fires-Resumed r v a = elim (dec_lt 0 r.resume_timers) [
  | yes armed ↦ rw (resume_fires_armed r armed) (
      resume-Resumed (record r { resume_timers = r.resume_timers - 1 })
        (Inv-transfer _ v refl refl refl))
  | no idle ↦
      rw (resume_fires_idle r (omega arith))
        (v, a, refl, refl, omega arith, inl (omega arith), refl)
]
