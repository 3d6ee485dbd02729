-- ===== src/Whole.antt =====
-- consumer.go: a consumer with its RDY account, its addresses and its goroutines, one beside the
-- other: each models the map of connections and the stop flag as far as it reads them.
pub mod Parts
pub mod Agreement
pub mod Tests
use go_nsq.Base.{ℕ, ◌+◌, ◌≡◌, Bool, true, false, length}
use go_nsq.Base.Int.{pos, neg_part}
use go_nsq.Base.{[], some, none}
use go_nsq.Consumer.{Consumer}
use go_nsq.Consumer.Conns.{Conn, Addr, find}
use go_nsq.Consumer.Joining.{add_conn}
use go_nsq.Consumer.Joining
use go_nsq.Consumer.Membership.{IsOwn}
use go_nsq.Consumer.History
use go_nsq.Lookup
use go_nsq.Lookup.{has, join_connections}
use go_nsq.Lookup.Steps
use go_nsq.Handlers
use go_nsq.Handlers.{conn_closed}

pub record Whole : Type 0 where
  pub account : Consumer
  pub book : Lookup.Lookup
  pub running : Handlers.Running

-- What one part does without the others.
abbrev pub alone_account : {r r' : Consumer} → History.Step r r' → Bool
alone_account (History.Step.joins _ _ _ _ _) = false
alone_account (History.Step.closes _ _) = false
alone_account (History.Step.stops _) = false
alone_account _ = true

abbrev pub alone_book : {l l' : Lookup.Lookup} → Steps.Step l l' → Bool
alone_book (Steps.Step.stop _) = false
alone_book (Steps.Step.join _ _ _) = false
alone_book (Steps.Step.close _ _) = false
alone_book _ = true

abbrev pub alone_running : {p q : Handlers.Running} → Handlers.Step p q → Bool
alone_running (Handlers.Step.add_conn _ _) = false
alone_running (Handlers.Step.close_conn _ _ _) = false
alone_running (Handlers.Step.stop_consumer _) = false
alone_running _ = true

-- The end of ConnectToNSQD.
unfoldable pub join_conn : Conn → Whole → Whole
join_conn c w = record {
  account = add_conn c w.account;
  book = join_connections c.addr w.book;
  running = record w.running { conns = w.running.conns + 1 };
}

-- onConnClose of a connection.
unfoldable pub on_conn_close : Conn → Whole → Whole
on_conn_close c w =
    let book = (Lookup.on_conn_close c.addr w.book).0 in
    record {
      account = Joining.on_conn_close c w.account;
      book = book;
      running = conn_closed (length book.connections) w.running;
    }

unfoldable pub stop : Whole → Whole
stop w = record {
  account = record w.account { stop_flag = true };
  book = record w.book { stop_flag = true };
  running = Handlers.stop w.running;
}

-- A part does something alone, or a method does something to all of them. The account's events are
-- tame.
pub data Step : Whole → Whole → Type 0 where
  account_moves :
      (w : Whole) {r : Consumer} (s : History.Step w.account r)
      → alone_account s ≡ true
      → History.IsTame s
      → Step w (record w { account = r })
  book_moves :
      (w : Whole) {l : Lookup.Lookup} (s : Steps.Step w.book l)
      → alone_book s ≡ true
      → Step w (record w { book = l })
  running_moves :
      (w : Whole) {q : Handlers.Running} (s : Handlers.Step w.running q)
      → alone_running s ≡ true
      → Step w (record w { running = q })
  joins :
      (w : Whole) (c : Conn)
      → c.rdy_count ≡ pos 0
      → neg_part c.max_rdy_count ≡ 0
      → c.written ≡ []
      → has c.addr w.book.pending_connections ≡ true
      → w.running.connected_flag ≡ true
      → Step w (join_conn c w)
  closes : (w : Whole) (c : Conn) → IsOwn c w.account → Step w (on_conn_close c w)
  stops : (w : Whole) → Step w (stop w)

pub data Reach (s : Whole) : Whole → Type 0 where
  start : Reach s s
  step : {p q : Whole} → Reach s p → Step p q → Reach s q
