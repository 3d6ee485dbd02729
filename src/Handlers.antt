-- ===== src/Handlers.antt =====
-- consumer.go: the handler goroutines, and the way to the end of the consumer.
pub mod Verdict
pub mod Ending
pub mod Loops
pub mod Tests
use go_nsq.Base.{
  ◌⊎◌, ℕ, ◌+◌, ◌-◌, ◌<◌, ◌≡◌, Bool, true, false, ◌&&◌, List, [], ◌∷◌, ◌++◌, ltb, if◌then◌else◌,
  ◌==◌,
}
use go_nsq.Base.Int.{ℤ, negsuc}
use go_nsq.Message.{Message, DelegateCall, finish, requeue, is_auto_response_disabled}
use go_nsq.Message.Response.{Call, calls}

-- What a handler does with a message: the methods that LogFailedMessage calls, none for a handler
-- without it, those that HandleMessage calls, and whether the latter returns an error.
pub record Handling : Type 0 where
  pub logged : List Call
  pub made : List Call
  pub failed : Bool

-- The test of shouldFailMessage; MaxAttempts and the attempts of the message are uint16.
unfoldable pub is_tired : ℕ → Message → Bool
is_tired max_attempts m = ltb 0 max_attempts && ltb max_attempts m.attempts

-- With the message as LogFailedMessage leaves it, and the calls that reach the delegate.
unfoldable pub should_fail_message : ℕ → Handling → Message → Bool × (Message × List DelegateCall)
unfolding is_tired
should_fail_message max_attempts h m =
    if is_tired max_attempts m then (true, calls m h.logged) else (false, (m, []))

-- What follows a call of HandleMessage.
unfoldable pub auto_respond : Bool → Message → Message × List DelegateCall
auto_respond failed m =
    if is_auto_response_disabled m
    then (m, [])
    else if failed
    then requeue (negsuc 0) m
    else finish m

-- The body of handlerLoop, with the calls that reach the delegate.
unfoldable pub handle : ℕ → Handling → Message → Message × List DelegateCall
unfolding should_fail_message auto_respond
handle max_attempts h m =
    let (tired, (m1, logged)) = should_fail_message max_attempts h m in
    if tired
    then (let (m2, more) = finish m1 in (m2, logged ++ more))
    else let (m2, made) = calls m1 h.made in
      let (m3, more) = auto_respond h.failed m2 in (m3, logged ++ (made ++ more))

-- rdyLoop and lookupdLoop; the latter waits for its jitter first.
pub data Loop : Type 0 where
  unstarted jittering polling ended : Loop

-- lookupdLoop when its timer fires or a recheck is asked for, and whether it queries.
unfoldable pub lookupd_wakes : Loop → Loop × Bool
lookupd_wakes unstarted = (unstarted, false)
lookupd_wakes jittering = (polling, false)
lookupd_wakes polling = (polling, true)
lookupd_wakes ended = (ended, false)

abbrev pub runs : Loop → Bool
runs unstarted = false
runs jittering = true
runs polling = true
runs ended = false

-- The goroutines and what ends them. `handlers` of the goroutines still run (runningHandlers),
-- `conns` connections are in the map, `closed_count` and `exit_count` count the calls of
-- close(incomingMessages) and close(exitChan), `stopped_count` those of close(StopChan), which
-- follows once the goroutines of `wg`, the two loops, are gone. `queries` counts the calls of
-- queryLookupd.
pub record Running : Type 0 where
  pub stop_flag : Bool
  pub connected_flag : Bool
  pub handlers : ℕ
  pub conns : ℕ
  pub stop_handler_used : Bool
  pub exit_handler_used : Bool
  pub closed_count : ℕ
  pub exit_count : ℕ
  pub stopped_count : ℕ
  pub exit_waits : Bool
  pub exit_timer : Bool
  pub rdy_loop : Loop
  pub lookupd_loop : Loop
  pub queries : ℕ

-- ConnectToNSQLookupd with the first address: a query, and the loop.
unfoldable pub start_lookupd_loop : Running → Running
start_lookupd_loop r = record r { lookupd_loop = jittering; queries = r.queries + 1 }

-- A round of lookupdLoop, and the end of each loop.
unfoldable pub lookupd_round : Running → Running
unfolding lookupd_wakes
lookupd_round r =
    let (loop, queried) = lookupd_wakes r.lookupd_loop in
    record r { lookupd_loop = loop; queries = if queried then r.queries + 1 else r.queries }

unfoldable pub lookupd_ends : Running → Running
lookupd_ends r = record r { lookupd_loop = ended }

unfoldable pub rdy_loop_ends : Running → Running
rdy_loop_ends r = record r { rdy_loop = ended }

unfoldable pub stop_handlers : Running → Running
stop_handlers r =
    if r.stop_handler_used
    then r
    else record r { stop_handler_used = true; closed_count = r.closed_count + 1 }

unfoldable pub exit : Running → Running
exit r =
    if r.exit_handler_used
    then r
    else record r { exit_handler_used = true; exit_count = r.exit_count + 1; exit_waits = true }

-- Stop; a CLS goes to each connection, and the timer of thirty seconds is armed.
unfoldable pub stop : Running → Running
unfolding stop_handlers
stop r =
    if r.stop_flag
    then r
    else if r.conns == 0
    then stop_handlers (record r { stop_flag = true })
    else record r { stop_flag = true; exit_timer = true }

-- The end of onConnClose for a consumer that stops; `left` connections are left in the map.
unfoldable pub conn_closed : ℕ → Running → Running
unfolding stop_handlers
conn_closed left r =
    let q = record r { conns = left } in
    if r.stop_flag then if left == 0 then stop_handlers q else q else q

-- The end of handlerLoop.
unfoldable pub handler_ends : Running → Running
unfolding exit
handler_ends r =
    let left = record r { handlers = r.handlers - 1 } in
    if left.handlers == 0 then exit left else left

-- One step. A connection that closes may not have entered the map. AddHandler panics once connected_flag is set, so there is no such step.
pub data Step : Running → Running → Type 0 where
  add_handlers :
      (r : Running) (concurrency : ℕ)
      → r.connected_flag ≡ false
      → Step r (record r { handlers = r.handlers + concurrency })
  set_connected : (r : Running) → Step r (record r { connected_flag = true })
  add_conn : (r : Running) → r.connected_flag ≡ true → Step r (record r { conns = r.conns + 1 })
  close_conn :
      (r : Running) (left : ℕ)
      → (left ≡ r.conns) ⊎ (left + 1 ≡ r.conns)
      → Step r (conn_closed left r)
  stop_consumer : (r : Running) → Step r (stop r)
  end_handler : (r : Running) → 0 < r.closed_count → 0 < r.handlers → Step r (handler_ends r)
  timer_fires :
      (r : Running) → r.exit_timer ≡ true → Step r (exit (record r { exit_timer = false }))
  first_lookupd :
      (r : Running)
      → r.connected_flag ≡ true
      → r.lookupd_loop ≡ unstarted
      → Step r (start_lookupd_loop r)
  lookupd_wakes_up : (r : Running) → runs r.lookupd_loop ≡ true → Step r (lookupd_round r)
  lookupd_exits :
      (r : Running) → 0 < r.exit_count → runs r.lookupd_loop ≡ true → Step r (lookupd_ends r)
  rdy_loop_exits :
      (r : Running) → 0 < r.exit_count → runs r.rdy_loop ≡ true → Step r (rdy_loop_ends r)
  close_stop_chan :
      (r : Running)
      → r.exit_waits ≡ true
      → runs r.rdy_loop ≡ false
      → runs r.lookupd_loop ≡ false
      → Step r (record r { exit_waits = false; stopped_count = r.stopped_count + 1 })

pub data Reach (s : Running) : Running → Type 0 where
  start : Reach s s
  step : {p q : Running} → Reach s p → Step p q → Reach s q

abbrev pub new_running : Running
new_running = record {
  stop_flag = false;
  connected_flag = false;
  handlers = 0;
  conns = 0;
  stop_handler_used = false;
  exit_handler_used = false;
  closed_count = 0;
  exit_count = 0;
  stopped_count = 0;
  exit_waits = false;
  exit_timer = false;
  rdy_loop = polling;
  lookupd_loop = unstarted;
  queries = 0;
}
