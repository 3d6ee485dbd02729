-- ===== src/Consumer/Rdy.antt =====
-- consumer.go: updateRDY and the operations that call it outside backoff.
use go_nsq.Base.{
  ℕ, zero, suc, ◌+◌, ◌%◌, Bool, false, ◌&&◌, ◌||◌, List, [], ◌∷◌, ◌++◌, Option, none, some, length,
  take, drop, get_elem?, if◌then◌else◌, ltb,
}
use go_nsq.Base.Int.{ℤ, pos, ◌+ℤ◌, ◌-ℤ◌, ltb_ℤ, leb_ℤ, eqb_ℤ}
use go_nsq.Base.Words.{wrap64, wrap32}
use go_nsq.Consumer.{
  Consumer, RdyError, closing, over_max_in_flight, in_backoff, in_backoff_timeout,
  per_conn_max_in_flight, drawn, draw_next, send_rdy, delete_timer, find_timer,
}
use go_nsq.Consumer.Conns.{Conn, Addr, find, addrs}

-- The retry of a count that could not be sent, five seconds later.
unfoldable pub schedule_retry : Conn → ℤ → Consumer → Consumer
schedule_retry c count r =
    if eqb_ℤ c.rdy_count (pos 0)
    then record r { rdy_retry_timers = (c.addr, count) ∷ r.rdy_retry_timers }
    else r

-- The part of updateRDY that follows maxPossibleRdy.
unfoldable pub admit_rdy : Conn → ℤ → ℤ → Consumer → Consumer × Option RdyError
admit_rdy c count possible r =
    let count' = if ltb_ℤ (pos 0) possible && ltb_ℤ possible count then possible else count in
    if leb_ℤ possible (pos 0) && ltb_ℤ (pos 0) count'
    then (schedule_retry c count' r, some over_max_in_flight)
    else send_rdy c count' r

-- updateRDY on an open connection.
unfoldable pub update_open : Conn → ℤ → Consumer → Consumer × Option RdyError
update_open c count r =
    admit_rdy c (if ltb_ℤ c.max_rdy_count count then c.max_rdy_count else count)
      (wrap64 (wrap64 (r.max_in_flight -ℤ r.total_rdy_count) +ℤ c.rdy_count))
      (record r { rdy_retry_timers = delete_timer c.addr r.rdy_retry_timers })

-- A connection that left the map has its closeFlag set.
unfoldable pub update_rdy : Addr → ℤ → Consumer → Consumer × Option RdyError
update_rdy a count r = elim (find a r.connections) [
  | none ↦ (r, some closing)
  | some c ↦ if c.close_flag then (r, some closing) else update_open c count r
]

-- `for _, c := range r.conns() { r.updateRDY(c, count) }`
unfoldable pub update_all : List Addr → ℤ → Consumer → Consumer
update_all [] count r = r
update_all (a ∷ rest) count r = update_all rest count (update_rdy a count r).0

unfoldable pub maybe_update_rdy : Addr → Consumer → Consumer
maybe_update_rdy a r =
    if in_backoff r || in_backoff_timeout r
    then r
    else (update_rdy a (per_conn_max_in_flight r) r).0

unfoldable pub maybe_update_all : List Addr → Consumer → Consumer
maybe_update_all [] r = r
maybe_update_all (a ∷ rest) r = maybe_update_all rest (maybe_update_rdy a r)

unfoldable pub change_max_in_flight : ℤ → Consumer → Consumer
change_max_in_flight n r =
    if eqb_ℤ r.max_in_flight (wrap32 n)
    then r
    else maybe_update_all (addrs r.connections) (record r { max_in_flight = wrap32 n })

-- A retry timer fires.
unfoldable pub retry_rdy : Addr → Consumer → Consumer
retry_rdy a r = elim (find_timer a r.rdy_retry_timers) [
  | none ↦ r
  | some count ↦ (update_rdy a count r).0
]

-- The loop of redistributeRDY that gives up RDY counts of idle and of long served connections.
unfoldable pub gives_up : Conn → Consumer → Bool
gives_up c r =
    ltb_ℤ (pos 0) c.rdy_count
    && (ltb_ℤ r.config.low_rdy_idle_timeout (r.world.now -ℤ c.last_msg_timestamp)
        || ltb_ℤ r.config.low_rdy_timeout (r.world.now -ℤ c.last_rdy_timestamp))

unfoldable pub give_up_one : Addr → Consumer → Consumer
give_up_one a r = elim (find a r.connections) [
  | none ↦ r
  | some c ↦ if gives_up c r then (update_rdy a (pos 0) r).0 else r
]

unfoldable pub give_up : List Addr → Consumer → Consumer
give_up [] r = r
give_up (a ∷ rest) r = give_up rest (give_up_one a r)

unfoldable pub give_one : Option Addr → Consumer → Consumer
give_one none r = r
give_one (some a) r = (update_rdy a (pos 1) r).0

-- The loop that gives RDY 1 to connections drawn at random; `fuel` is the number of candidates.
unfoldable pub spread : ℕ → List Addr → ℤ → Consumer → Consumer
spread zero candidates available r = r
spread (suc fuel) candidates available r =
    let i = drawn r % length candidates in
    let given = give_one (get_elem? candidates i) (draw_next r) in
    let more =
      spread fuel (take i candidates ++ drop (i + 1) candidates) (available -ℤ pos 1) given in
    if ltb 0 (length candidates) && ltb_ℤ (pos 0) available then more else r

unfoldable pub available_max_in_flight : Consumer → ℤ → ℤ
available_max_in_flight r max_in_flight =
    if in_backoff r
    then wrap64 (pos 1 -ℤ r.total_rdy_count)
    else wrap64 (max_in_flight -ℤ r.total_rdy_count)

unfoldable pub redistribute : Consumer → Consumer
redistribute r =
    let conns = addrs r.connections in
    let r' = give_up conns r in
    spread (length conns) conns (available_max_in_flight r' r.max_in_flight) r'

unfoldable pub needs_redistribution : Consumer → Bool
needs_redistribution r =
    ltb_ℤ r.max_in_flight (pos (length r.connections))
    || (in_backoff r && ltb 1 (length r.connections))
    || r.need_rdy_redistributed

unfoldable pub redistribute_rdy : Consumer → Consumer
redistribute_rdy r =
    if in_backoff_timeout r
    then r
    else if ltb (length r.connections) 1
    then r
    else if needs_redistribution r
    then redistribute (record r { need_rdy_redistributed = false })
    else r
