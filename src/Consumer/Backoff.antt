-- ===== src/Consumer/Backoff.antt =====
-- consumer.go: startStopContinueBackoff, backoff and resume.
use go_nsq.Base.{
  ◌+◌, ◌-◌, ◌%◌, Bool, true, false, ◌&&◌, Option, none, some, length, get_elem?, if◌then◌else◌,
  ◌==◌,
}
use go_nsq.Base.Int.{ℤ, pos, ◌+ℤ◌, ◌-ℤ◌, ltb_ℤ, leb_ℤ, eqb_ℤ}
use go_nsq.Base.Words.{wrap64, wrap32}
use go_nsq.Consumer.{
  Consumer, Config, RdyError, Signal, backoff_flag, continue_flag, resume_flag, drawn, draw_next,
  in_backoff_timeout, per_conn_max_in_flight,
}
use go_nsq.Consumer.Conns.{Addr, addrs}
use go_nsq.Consumer.Rdy.{update_rdy, update_all}

abbrev pub second : ℤ
second = pos 1000000000

-- `d.Nanoseconds()` is `d`; time.AfterFunc arms one more timer.
unfoldable pub backoff : ℤ → Consumer → Consumer
backoff d r = record r { backoff_duration = d; resume_timers = r.resume_timers + 1 }

-- The switch on the signal: the new counter, and whether it was updated.
unfoldable pub next_counter : Config → Signal → ℤ → ℤ × Bool
next_counter config resume_flag counter =
    if ltb_ℤ (pos 0) counter then (wrap32 (counter -ℤ pos 1), true) else (counter, false)
next_counter config backoff_flag counter =
    if leb_ℤ (config.calculate (wrap64 (counter +ℤ pos 1))) config.max_backoff_duration
    then (wrap32 (counter +ℤ pos 1), true)
    else (counter, false)
next_counter config continue_flag counter = (counter, false)

unfoldable pub backoff_time : Consumer → ℤ
backoff_time r =
    let d = r.config.calculate r.backoff_counter in
    if ltb_ℤ r.config.max_backoff_duration d then r.config.max_backoff_duration else d

-- What follows the store of the counter.
unfoldable pub apply_counter : Bool → Consumer → Consumer
apply_counter updated r =
    if eqb_ℤ r.backoff_counter (pos 0) && updated
    then update_all (addrs r.connections) (per_conn_max_in_flight r) r
    else if ltb_ℤ (pos 0) r.backoff_counter
    then backoff (backoff_time r) (update_all (addrs r.connections) (pos 0) r)
    else r

unfoldable pub start_stop_continue_backoff : Signal → Consumer → Consumer
start_stop_continue_backoff signal r =
    let (counter, updated) = next_counter r.config signal r.backoff_counter in
    if in_backoff_timeout r
    then r
    else apply_counter updated (record r { backoff_counter = counter })

-- The end of resume, by the result of the update.
unfoldable pub resumed : Consumer × Option RdyError → Consumer
resumed (r, none) = record r { backoff_duration = pos 0 }
resumed (r, some e) = backoff second r

-- The connection that the generator draws.
unfoldable pub resume_at : Option Addr → Consumer → Consumer
resume_at none r = backoff second r
resume_at (some a) r = resumed (update_rdy a (pos 1) r)

unfoldable pub resume : Consumer → Consumer
resume r =
    let i = drawn r % length r.connections in
    if r.stop_flag
    then record r { backoff_duration = pos 0 }
    else if length r.connections == 0
    then backoff second r
    else resume_at (get_elem? (addrs r.connections) i) (draw_next r)

-- A resume timer fires.
unfoldable pub resume_fires : Consumer → Consumer
resume_fires r =
    if r.resume_timers == 0 then r else resume (record r { resume_timers = r.resume_timers - 1 })
