-- ===== src/Consumer.antt =====
-- consumer.go: the consumer's account of RDY counts, its backoff, and its redistribution of RDY.
pub mod Conns
pub mod Rdy
pub mod Account
pub mod Bounds
pub mod Budget
pub mod Loops
pub mod Redistribution
pub mod Fuel
pub mod Backoff
pub mod Levels
pub mod Resumption
pub mod Strategy
pub mod Jitter
pub mod Joining
pub mod Membership
pub mod Sending
pub mod Told
pub mod Promise
pub mod History
pub mod Quiet
pub mod Tests
use go_nsq.Base.{
  ℕ, ◌+◌, ◌*◌, ◌/◌, ◌≡◌, Bool, true, false, not, ◌&&◌, ◌||◌, List, [], ◌∷◌, ◌++◌, Option, none,
  some, length, map, ◌==◌, leb, if◌then◌else◌,
}
use go_nsq.Base.Int.{ℤ, pos, negsuc, ◌+ℤ◌, ◌-ℤ◌, ltb_ℤ, leb_ℤ, eqb_ℤ}
use go_nsq.Base.Bytes.{bytes_eq}
use go_nsq.Base.Words.{wrap64, wrap32}
use go_nsq.Command.{Command, ready}
use Conns.{Conn, Addr, find, modify, addrs}

-- The settings that these operations read; `calculate` is the BackoffStrategy.
pub record Config : Type 0 where
  pub calculate : ℤ → ℤ
  pub max_backoff_duration : ℤ
  pub low_rdy_idle_timeout : ℤ
  pub low_rdy_timeout : ℤ

-- What the machine decides: the clock, which socket writes fail, what the random number generator
-- draws, and what int64(NaN) is. The counters number the writes and the draws.
pub record World : Type 0 where
  pub now : ℤ
  pub write_fails : ℕ → Bool
  pub writes : ℕ
  pub draw : ℕ → ℕ
  pub draws : ℕ
  pub int64_nan : ℤ

-- A flag is true for 1. `rdy_retry_timers` holds the count of each pending retry, `resume_timers`
-- the number of timers that will call `resume`.
pub record Consumer : Type 0 where
  pub config : Config
  pub world : World
  pub connections : List Conn
  pub total_rdy_count : ℤ
  pub backoff_duration : ℤ
  pub backoff_counter : ℤ
  pub max_in_flight : ℤ
  pub need_rdy_redistributed : Bool
  pub rdy_retry_timers : List (Addr × ℤ)
  pub resume_timers : ℕ
  pub stop_flag : Bool

pub data RdyError : Type 0 where
  closing over_max_in_flight io : RdyError

pub data Signal : Type 0 where
  backoff_flag continue_flag resume_flag : Signal

unfoldable pub in_backoff : Consumer → Bool
in_backoff r = ltb_ℤ (pos 0) r.backoff_counter

unfoldable pub in_backoff_timeout : Consumer → Bool
in_backoff_timeout r = ltb_ℤ (pos 0) r.backoff_duration

-- The quotient of the two numbers as floats, at least 1 and at most `b`, cut to an integer. Both
-- numbers have at most 32 bits, so the cut quotient is the integer one; 0 / 0 is NaN.
unfoldable pub share : ℕ → ℕ → ℕ
share b n = if leb b 1 then b else if leb 1 (b / n) then b / n else 1

unfoldable pub per_conn : ℤ → ℕ → ℤ → ℤ
unfolding share
per_conn (negsuc b) n nan = negsuc b
per_conn (pos b) n nan = if n == 0 then if b == 0 then nan else pos b else pos (share b n)

unfoldable pub per_conn_max_in_flight : Consumer → ℤ
unfolding per_conn
per_conn_max_in_flight r = per_conn r.max_in_flight (length r.connections) r.world.int64_nan

-- `int64(float64(conn.RDY()) * 0.85)` is the integer quotient for the counts that occur.
unfoldable pub starved_at : ℤ → ℤ
starved_at (pos n) = pos (n * 85 / 100)
starved_at (negsuc n) = pos 0 -ℤ pos ((n + 1) * 85 / 100)

unfoldable pub is_starved_conns : List Conn → Bool
unfolding starved_at
is_starved_conns [] = false
is_starved_conns (c ∷ cs) =
    (leb_ℤ (starved_at c.rdy_count) c.messages_in_flight
      && ltb_ℤ (pos 0) c.messages_in_flight
      && not c.close_flag)
    || is_starved_conns cs

unfoldable pub is_starved : Consumer → Bool
unfolding is_starved_conns
is_starved r = is_starved_conns r.connections

-- The generator's next number, and the generator after it.
unfoldable pub drawn : Consumer → ℕ
drawn r = r.world.draw r.world.draws

unfoldable pub draw_next : Consumer → Consumer
draw_next r = record r { world = record r.world { draws = r.world.draws + 1 } }

-- WriteCommand on a connection of this consumer: an error closes the connection (OnIOError).
unfoldable pub write_command : Addr → Command → Consumer → Consumer × Option RdyError
write_command a cmd r =
    let w = record r.world { writes = r.world.writes + 1 } in
    if r.world.write_fails r.world.writes
    then (
      record r {
        world = w;
        connections = modify a (λ c. record c { close_flag = true }) r.connections;
      },
      some io,
    )
    else (
      record r {
        world = w;
        connections = modify a (λ c. record c { written = cmd ∷ c.written }) r.connections;
      },
      none,
    )

-- (*Conn).Close, as far as the consumer sees it.
unfoldable pub close_conn : Addr → Consumer → Consumer
close_conn a r = record r {
  connections = modify a (λ c. record c { close_flag = true }) r.connections;
}

-- What the loops of a connection store: its messages in flight, and when the last message came.
unfoldable pub store_traffic : Addr → ℤ → ℤ → Consumer → Consumer
store_traffic a in_flight last_msg r = record r {
  connections =
      modify a (λ c. record c { messages_in_flight = in_flight; last_msg_timestamp = last_msg })
        r.connections;
}

-- (*Conn).SetRDY
unfoldable pub set_rdy : ℤ → ℤ → Conn → Conn
set_rdy now count c = record c {
  rdy_count = count;
  last_rdy_timestamp = if ltb_ℤ (pos 0) count then now else c.last_rdy_timestamp;
}

-- The two stores of sendRDY.
unfoldable pub store_rdy : Conn → ℤ → Consumer → Consumer
store_rdy c count r = record r {
  total_rdy_count = wrap64 (r.total_rdy_count +ℤ wrap64 (count -ℤ c.rdy_count));
  connections = modify c.addr (set_rdy r.world.now count) r.connections;
}

unfoldable pub send_rdy : Conn → ℤ → Consumer → Consumer × Option RdyError
send_rdy c count r =
    if eqb_ℤ count (pos 0) && eqb_ℤ c.rdy_count (pos 0)
    then (r, none)
    else if eqb_ℤ count c.rdy_count
    then (store_rdy c count r, none)
    else write_command c.addr (ready count) (store_rdy c count r)

unfoldable pub delete_timer : Addr → List (Addr × ℤ) → List (Addr × ℤ)
delete_timer a [] = []
delete_timer a ((b, n) ∷ ts) =
    if bytes_eq a b then delete_timer a ts else (b, n) ∷ delete_timer a ts

unfoldable pub find_timer : Addr → List (Addr × ℤ) → Option ℤ
find_timer a [] = none
find_timer a ((b, n) ∷ ts) = if bytes_eq a b then some n else find_timer a ts
