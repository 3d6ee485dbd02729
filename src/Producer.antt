-- ===== src/Producer.antt =====
-- producer.go: publishing, the connection on demand, and the router that matches responses to
-- transactions.
pub mod Calls
pub mod Growth
pub mod Order
pub mod Places
pub mod Publishing
pub mod Returns
pub mod Attendance
pub mod Senders
pub mod Tests
use go_nsq.Base.{
  ℕ, ◌+◌, ◌-◌, ◌≡◌, ◌⊎◌, Bool, true, false, ◌||◌, List, [], ◌∷◌, ◌++◌, Option, none, some, map,
  if◌then◌else◌,
}
use go_nsq.Base.Int.{ℤ, eqb_ℤ}
use go_nsq.Command.{Command}
use go_nsq.Protocol.{frame_type_response, frame_type_error}

pub data State : Type 0 where
  init disconnected connected : State

pub data Router : Type 0 where
  off running cleaning : Router

-- A connection is `failed` after an error, `closing` after Close; OnClose is still to come then.
pub data Link : Type 0 where
  absent is_open failed closing : Link

pub data Error : Type 0 where
  protocol : List ℕ → Error
  not_connected stopped : Error
  connect_failed : ℕ → Error

-- `done_chan` tells whether the channel is not nil; `id` stands for the pointer.
pub record Transaction : Type 0 where
  pub id : ℕ
  pub cmd : Command
  pub done_chan : Bool

-- `error` is none for a nil error.
pub record Answer : Type 0 where
  pub transaction : Transaction
  pub error : Option Error

-- `entered` holds the calls of sendCommandAsync that have yet to find the state connected, `waiting`
-- those that block on transactionChan. `accepted` is the history of what the router took from that
-- channel, `answers` of what it finished, in order, and `early_loss` tells whether a connection
-- failed while connect ran. `dialling` is who runs connect: a call, or Ping; `stored` that it has
-- stored the state and has not started the router yet.
pub record Producer : Type 0 where
  pub state : State
  pub stop_flag : Bool
  pub exit_closed : Bool
  pub close_closed : Bool
  pub router : Router
  pub link : Link
  pub dialling : Option (Option Transaction)
  pub stored : Bool
  pub resetting : Bool
  pub concurrent_producers : ℕ
  pub entered : List Transaction
  pub waiting : List Transaction
  pub transactions : List Transaction
  pub refused : List (Transaction × Error)
  pub accepted : List Transaction
  pub answers : List Answer
  pub delivered : List Answer
  pub early_loss : Bool

abbrev pub is_connected : State → Bool
is_connected connected = true
is_connected init = false
is_connected disconnected = false

-- (*ProducerTransaction).finish with the error set.
unfoldable pub finish : Transaction → Option Error → Producer → Producer
finish t e p =
    let answer : Answer = record { transaction = t; error = e } in
    record p {
      answers = p.answers ++ (answer ∷ []);
      delivered = if t.done_chan then p.delivered ++ (answer ∷ []) else p.delivered;
    }

-- (*Producer).popTransaction; with no transaction the index is out of range and the program panics.
unfoldable pub pop_transaction : ℤ → List ℕ → Producer → Option Producer
pop_transaction frame_type body p = elim p.transactions [
  | [] ↦ none
  | t ∷ ts ↦ some (
      finish t (if eqb_ℤ frame_type frame_type_error then some (protocol body) else none)
        (record p { transactions = ts }))
]

unfoldable pub close_link : Link → Link
close_link is_open = closing
close_link l = l

-- (*Producer).close; `resetting` is the goroutine that waits for the router.
unfoldable pub close : Producer → Producer
unfolding close_link
close p =
    if is_connected p.state
    then record p { state = disconnected; link = close_link p.link; resetting = true }
    else p

-- The router takes a transaction; the write fails or not.
unfoldable pub route : Transaction → Bool → Producer → Producer
route t fails p =
    let q = record p {
      transactions = p.transactions ++ (t ∷ []);
      accepted = p.accepted ++ (t ∷ []);
      concurrent_producers = p.concurrent_producers - 1;
    } in
    if fails then close q else q

-- The first loop of transactionCleanup.
unfoldable pub finish_all : List Transaction → Producer → Producer
finish_all [] p = p
finish_all (t ∷ ts) p = finish_all ts (finish t (some not_connected) p)

unfoldable pub begin_cleanup : Producer → Producer
begin_cleanup p = finish_all p.transactions (record p { router = cleaning; transactions = [] })

-- A transaction that raced with the clean-up.
unfoldable pub clean_up : Transaction → Producer → Producer
clean_up t p = finish t (some not_connected) (record p {
  accepted = p.accepted ++ (t ∷ []);
  concurrent_producers = p.concurrent_producers - 1;
})

unfoldable pub refuse : Transaction → Error → Producer → Producer
refuse t e p = record p {
  refused = (t, e) ∷ p.refused;
  concurrent_producers = p.concurrent_producers - 1;
}

-- connect before it dials: the answer, or none to dial.
unfoldable pub check_connect : Producer → Option (Option Error)
check_connect p = if p.stop_flag then some (some stopped) else elim p.state [
  | connected ↦ some none
  | disconnected ↦ some (some not_connected)
  | init ↦ none
]

-- Ping up to the dialling: none to dial, some none to write the command.
unfoldable pub begin_ping : Producer → Option (Option Error)
unfolding check_connect
begin_ping p = if is_connected p.state then some none else check_connect p

abbrev pub queued : Option Transaction → List Transaction → List Transaction
queued none ts = ts
queued (some t) ts = t ∷ ts

-- connect once the connection is up: the state, which others read without the mutex.
unfoldable pub store_connected : Producer → Producer
store_connected p = record p { state = connected; stored = true }

-- The end of connect: the new closeChan, and the router. Until the mutex is released nobody else
-- reads either.
unfoldable pub connect_done : Option Transaction → Producer → Producer
connect_done t p = record p {
  close_closed = false;
  router = running;
  dialling = none;
  stored = false;
  waiting = queued t p.waiting;
}

-- onConnIOError
unfoldable pub on_conn_io_error : Producer → Producer
unfolding close
on_conn_io_error p = close (record p { link = failed })

unfoldable pub stop : Producer → Producer
unfolding close
stop p = if p.stop_flag then p else close (record p { stop_flag = true; exit_closed = true })

-- One step of a goroutine. The mutex `guard` is held while `dialling` is some. A connection that fails
-- between the store and the start of the router can leave a router that runs with the state init;
-- a connect that begins then would start a second router, and there is no such step here.
pub data Step : Producer → Producer → Type 0 where
  enter :
      (p : Producer) (t : Transaction)
      → Step p
          (record p { entered = t ∷ p.entered; concurrent_producers = p.concurrent_producers + 1 })
  find_connected :
      (p : Producer) (xs ys : List Transaction) (t : Transaction)
      → p.entered ≡ xs ++ (t ∷ ys)
      → p.state ≡ connected
      → Step p (record p { entered = xs ++ ys; waiting = t ∷ p.waiting })
  connect_connected :
      (p : Producer) (xs ys : List Transaction) (t : Transaction)
      → p.entered ≡ xs ++ (t ∷ ys)
      → p.dialling ≡ none
      → check_connect p ≡ some none
      → Step p (record p { entered = xs ++ ys; waiting = t ∷ p.waiting })
  connect_refused :
      (p : Producer) (xs ys : List Transaction) (t : Transaction) (e : Error)
      → p.entered ≡ xs ++ (t ∷ ys)
      → p.dialling ≡ none
      → check_connect p ≡ some (some e)
      → Step p (refuse t e (record p { entered = xs ++ ys }))
  connect_fails :
      (p : Producer) (xs ys : List Transaction) (t : Transaction) (n : ℕ)
      → p.entered ≡ xs ++ (t ∷ ys)
      → p.dialling ≡ none
      → check_connect p ≡ none
      → Step p (refuse t (connect_failed n) (record p { entered = xs ++ ys }))
  dial :
      (p : Producer) (xs ys : List Transaction) (t : Transaction)
      → p.entered ≡ xs ++ (t ∷ ys)
      → p.dialling ≡ none
      → check_connect p ≡ none
      → p.router ≡ off
      → Step p (record p { entered = xs ++ ys; dialling = some (some t); link = is_open })
  dial_ping :
      (p : Producer)
      → p.dialling ≡ none
      → begin_ping p ≡ none
      → p.router ≡ off
      → Step p (record p { dialling = some none; link = is_open })
  store_state :
      (p : Producer) (t : Option Transaction)
      → p.dialling ≡ some t
      → p.stored ≡ false
      → Step p (store_connected p)
  connect :
      (p : Producer) (t : Option Transaction)
      → p.dialling ≡ some t
      → p.stored ≡ true
      → Step p (connect_done t p)
  take_transaction :
      (p : Producer) (xs ys : List Transaction) (t : Transaction) (fails : Bool)
      → p.waiting ≡ xs ++ (t ∷ ys)
      → p.router ≡ running
      → Step p (route t fails (record p { waiting = xs ++ ys }))
  send_stopped :
      (p : Producer) (xs ys : List Transaction) (t : Transaction)
      → p.waiting ≡ xs ++ (t ∷ ys)
      → p.exit_closed ≡ true
      → Step p (refuse t stopped (record p { waiting = xs ++ ys }))
  respond :
      (p q : Producer) (frame_type : ℤ) (body : List ℕ)
      → p.router ≡ running
      → pop_transaction frame_type body p ≡ some q
      → Step p q
  leave_router :
      (p : Producer)
      → p.router ≡ running
      → (p.close_closed || p.exit_closed) ≡ true
      → Step p (begin_cleanup p)
  clean_one :
      (p : Producer) (xs ys : List Transaction) (t : Transaction)
      → p.waiting ≡ xs ++ (t ∷ ys)
      → p.router ≡ cleaning
      → Step p (clean_up t (record p { waiting = xs ++ ys }))
  clean_done :
      (p : Producer)
      → p.router ≡ cleaning
      → p.concurrent_producers ≡ 0
      → Step p (record p { router = off })
  reset :
      (p : Producer)
      → p.resetting ≡ true
      → p.router ≡ off
      → Step p (record p { state = init; resetting = false })
  lose : (p : Producer) → p.link ≡ is_open → p.dialling ≡ none → Step p (on_conn_io_error p)
  lose_early :
      (p : Producer) (t : Option Transaction)
      → p.link ≡ is_open
      → p.dialling ≡ some t
      → Step p (record (on_conn_io_error p) { early_loss = true })
  on_conn_close :
      (p : Producer)
      → (p.link ≡ failed) ⊎ (p.link ≡ closing)
      → p.dialling ≡ none
      → Step p (record p { link = absent; close_closed = true })
  stop_producer : (p : Producer) → p.dialling ≡ none → Step p (stop p)

pub data Reach (s : Producer) : Producer → Type 0 where
  start : Reach s s
  step : {p q : Producer} → Reach s p → Step p q → Reach s q

-- What NewProducer returns.
abbrev pub new_producer : Producer
new_producer = record {
  state = init;
  stop_flag = false;
  exit_closed = false;
  close_closed = false;
  router = off;
  link = absent;
  dialling = none;
  stored = false;
  resetting = false;
  concurrent_producers = 0;
  entered = [];
  waiting = [];
  transactions = [];
  refused = [];
  accepted = [];
  answers = [];
  delivered = [];
  early_loss = false;
}
