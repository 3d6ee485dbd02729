-- ===== src/Consumer/History.antt =====
-- consumer.go: the events of a consumer in any order.
use go_nsq.Base.{
  [], ℕ, ◌^◌, ◌≤◌, ◌<◌, ◌≡◌, inl, inr, refl, sym, ap, ◌∙◌, true, none, some, Bool-cases,
}
use mathlib.Core.Path.{subst}
use go_nsq.Base.Int.{ℤ, pos, neg_part}
use go_nsq.Consumer.{
  Consumer, World, Signal, in_backoff_timeout, find_timer, close_conn, store_traffic,
}
use go_nsq.Consumer.Conns.{Conn, Addr, find}
use go_nsq.Consumer.Rdy.{change_max_in_flight, retry_rdy, update_rdy, redistribute_rdy}
use go_nsq.Consumer.Backoff.{start_stop_continue_backoff, resume_fires}
use go_nsq.Consumer.Joining.{add_conn, on_conn_close}
use go_nsq.Consumer.Account.{Inv, Inv-transfer, modify-Inv}
use go_nsq.Consumer.Budget.{update_rdy-Bounded}
use go_nsq.Consumer.Loops.{change_max_in_flight_lem, change_max_in_flight-Kept}
use go_nsq.Consumer.Levels.{
  Armed, IsTop, next_level, start_stop_continue_backoff_lem, start_stop_continue_backoff-config,
}
use go_nsq.Consumer.Redistribution.{redistribute_rdy-Redistributed}
use go_nsq.Consumer.Resumption.{resume_fires-Resumed}
use go_nsq.Consumer.Membership.{
  add_conn-Inv, add_conn-Settled, on_conn_close-Inv, on_conn_close-Settled, IsOwn,
}

-- An event, with the world of its moment: the clock, the writes that fail and the numbers drawn
-- change between events as they like. A new connection comes with RDY 0, not sent a count, under an
-- address without one; one that closes may be any.
pub data Step : Consumer → Consumer → Type 0 where
  turns : (r : Consumer) (w : World) → Step r (record r { world = w })
  signals : (r : Consumer) (signal : Signal) → Step r (start_stop_continue_backoff signal r)
  resumes : (r : Consumer) → Step r (resume_fires r)
  redistributes : (r : Consumer) → Step r (redistribute_rdy r)
  changes : (r : Consumer) (z : ℤ) → Step r (change_max_in_flight z r)
  retries :
      (r : Consumer) (a : Addr) (z : ℤ)
      → find_timer a r.rdy_retry_timers ≡ some z
      → Step r (retry_rdy a r)
  joins :
      (r : Consumer) (c : Conn)
      → c.rdy_count ≡ pos 0
      → find c.addr r.connections ≡ none
      → c.written ≡ []
      → Step r (add_conn c r)
  closes : (r : Consumer) (c : Conn) → Step r (on_conn_close c r)
  starts_closing : (r : Consumer) (a : Addr) → Step r (close_conn a r)
  has_traffic :
      (r : Consumer) (a : Addr) (in_flight last_msg : ℤ)
      → Step r (store_traffic a in_flight last_msg r)
  stops : (r : Consumer) → Step r (record r { stop_flag = true })

-- An event as the account needs it: max-in-flight is set to a number from 0 to 2 ^ 31 - 1, the counts
-- of retries and the limit of a new nsqd are not negative, and the connection that closes is the one
-- stored under its address, or has RDY 0 with none stored there.
abbrev pub IsTame : {r r' : Consumer} → Step r r' → Type 0
IsTame (Step.changes r z) = (n : ℕ) × (z ≡ pos n) × (n < 2 ^ 31)
IsTame (Step.retries r a z _) = (n : ℕ) × (z ≡ pos n)
IsTame (Step.joins r c _ _ _) = neg_part c.max_rdy_count ≡ 0
IsTame (Step.closes r c) = IsOwn c r
IsTame _ = Unit

-- The states that tame events lead to.
pub data Reach (s : Consumer) : Consumer → Type 0 where
  start : Reach s s
  step : {p q : Consumer} → Reach s p → (event : Step p q) → IsTame event → Reach s q

-- The account holds, a wait has a timer, and the backoff level is between 0 and the highest.
pub record IsHeld (top : ℕ) (r : Consumer) : Type 0 where
  pub inv : Inv r
  pub armed : Armed r
  pub highest : IsTop top r.config
  pub level : (n : ℕ) × (r.backoff_counter ≡ pos n) × (n ≤ top)

-- An event that leaves backoff alone.
abbrev Settled : Consumer → Consumer → Type 0
Settled r r' =
    (r'.backoff_duration ≡ r.backoff_duration)
    × (r'.backoff_counter ≡ r.backoff_counter)
    × (r'.resume_timers ≡ r.resume_timers)
    × (r'.config ≡ r.config)

Settled-IsHeld : (top : ℕ) (r r' : Consumer) → Settled r r' → Inv r' → IsHeld top r → IsHeld top r'
unfolding in_backoff_timeout
Settled-IsHeld top r r' (duration, counter, timers, config) v w =
    let (n, e, h) = w.level in
    record {
      inv = v;
      armed = elim w.armed [ inl out ↦ inl (rw duration out) | inr armed ↦ inr (rw timers armed) ];
      highest = rw config w.highest;
      level = (n, counter ∙ e, h);
    }

retry_rdy-update_rdy :
    (r : Consumer) (a : Addr) (n : ℕ)
    → find_timer a r.rdy_retry_timers ≡ some (pos n)
    → retry_rdy a r ≡ (update_rdy a (pos n) r).0
unfolding retry_rdy
retry_rdy-update_rdy r a n e = rw (e, retry_rdy) refl

module _ (top : ℕ) where
  signals-IsHeld :
      (r : Consumer) (signal : Signal)
      → IsHeld top r
      → IsHeld top (start_stop_continue_backoff signal r)
  signals-IsHeld r signal w =
      let (n, e, h) = w.level in
      let (inv, armed, _, counter, _, below, _) =
        start_stop_continue_backoff_lem top n signal r w.highest e h w.inv w.armed in
      let same = start_stop_continue_backoff-config signal r w.inv w.armed in
      record {
        inv = inv;
        armed = armed;
        highest = rw same w.highest;
        level = elim (Bool-cases (in_backoff_timeout r)) [
          | inl waits ↦ (n, rw waits at counter, h)
          | inr ready ↦ (next_level r.config signal n, rw ready at counter, below)
        ];
      }

  pub Step-IsHeld :
      {r r' : Consumer} (event : Step r r') → IsTame event → IsHeld top r → IsHeld top r'
  Step-IsHeld (Step.turns r x) _ w =
      Settled-IsHeld top r _ (refl, refl, refl, refl) (Inv-transfer _ w.inv refl refl refl) w
  Step-IsHeld (Step.stops r) _ w =
      Settled-IsHeld top r _ (refl, refl, refl, refl) (Inv-transfer _ w.inv refl refl refl) w
  Step-IsHeld (Step.starts_closing r a) _ w =
      unfold close_conn in
      Settled-IsHeld top r _ (refl, refl, refl, refl)
        (modify-Inv a _ r (λ c. refl) (λ c. refl) w.inv) w
  Step-IsHeld (Step.has_traffic r a in_flight last_msg) _ w =
      unfold store_traffic in
      Settled-IsHeld top r _ (refl, refl, refl, refl)
        (modify-Inv a _ r (λ c. refl) (λ c. refl) w.inv) w
  Step-IsHeld (Step.signals r signal) _ w = signals-IsHeld r signal w
  Step-IsHeld (Step.resumes r) _ w =
      let (n, e, h) = w.level in
      let (inv, armed, _, counter, _, _, config) = resume_fires-Resumed r w.inv w.armed in
      record {
        inv = inv;
        armed = armed;
        highest = rw config w.highest;
        level = (n, counter ∙ e, h);
      }
  Step-IsHeld (Step.redistributes r) _ w =
      let x = redistribute_rdy-Redistributed r w.inv in
      Settled-IsHeld top r _ (x.duration_kept, x.counter_kept, x.timers_kept, x.config_kept) x.inv w
  Step-IsHeld (Step.changes r z) (n, e, h) w =
      subst (λ x. IsHeld top (change_max_in_flight x r)) (sym e)
        (Settled-IsHeld top r _ (change_max_in_flight-Kept n r h w.inv)
          (change_max_in_flight_lem n r h w.inv).0 w)
  Step-IsHeld (Step.retries r a z f) (n, same) w =
      let e = f ∙ ap some same in
      let x = update_rdy-Bounded a n r w.inv in
      subst (IsHeld top) (sym (retry_rdy-update_rdy r a n e)) (
        Settled-IsHeld top r _
          (x.kept.duration_kept, x.kept.counter_kept, x.kept.timers_kept, x.kept.config_kept) x.inv
          w)
  Step-IsHeld (Step.joins r c fresh new _) limit w =
      Settled-IsHeld top r _ (add_conn-Settled c r fresh limit new w.inv)
        (add_conn-Inv c r fresh limit new w.inv).0 w
  Step-IsHeld (Step.closes r c) own w =
      Settled-IsHeld top r _ (on_conn_close-Settled c r) (on_conn_close-Inv c r own w.inv).0 w

  -- Any sequence of tame events keeps it: the account of the RDY counts is exact and holds between 0 and
  -- 2 ^ 31, each count is at most what its nsqd accepts, a consumer that waits has a timer that will
  -- wake it, and the backoff level stays between 0 and the level that is the highest of the strategy.
  pub Reach-IsHeld : {s r : Consumer} → IsHeld top s → Reach s r → IsHeld top r
  Reach-IsHeld w Reach.start = w
  Reach-IsHeld w (Reach.step reach event tame) = Step-IsHeld event tame (Reach-IsHeld w reach)
