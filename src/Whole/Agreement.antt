-- ===== src/Whole/Agreement.antt =====
-- consumer.go: the account, the addresses and the goroutines agree on the connections.
use go_nsq.Base.{
  ℕ, ◌≤◌, ◌≡◌, inl, inr, refl, sym, ap, ◌∙◌, true, List, [], ◌∷◌, none, arith, Bool-cases, length,
}
use go_nsq.Base.Int.{pos, neg_part}
use go_nsq.Base.Bytes.{bytes_eq}
use go_nsq.Consumer.{Consumer}
use go_nsq.Consumer.Conns
use go_nsq.Consumer.Conns.{Conn, Addr, find, addrs, find-addr}
use go_nsq.Consumer.Joining.{add_conn}
use go_nsq.Consumer.Joining
use go_nsq.Consumer.History
use go_nsq.Consumer.History.{IsHeld, Step-IsHeld}
use go_nsq.Consumer.Membership.{IsOwn}
use go_nsq.Consumer.Sending.{maybe_all-kept}
use go_nsq.Lookup
use go_nsq.Lookup.{has, join_connections, new_lookup}
use go_nsq.Lookup.Removal.{count}
use go_nsq.Lookup.Book.{IsBook, Step-IsBook, Reach-IsBook}
use go_nsq.Lookup.Steps
use go_nsq.Handlers
use go_nsq.Handlers.{Running, stop_handlers, conn_closed, new_running}
use go_nsq.Whole.{Whole, join_conn, on_conn_close, stop, Step, Reach}
use go_nsq.Whole.Parts.{HasKeys, send_rdy-HasKeys, account-HasKeys, book-same, running-same}

pub record Agrees (top : ℕ) (w : Whole) : Type 0 where
  pub held : IsHeld top w.account
  pub booked : IsBook w.book
  pub keys : HasKeys w.book.connections w.account.connections
  pub number : w.running.conns ≡ length w.book.connections

pub delete_absent : (a : Addr) (xs : List Addr) → count a xs ≡ 0 → Lookup.delete a xs ≡ xs
unfolding Lookup.delete count
delete_absent a [] h = refl
delete_absent a (b ∷ bs) h = elim (Bool-cases (bytes_eq a b)) [
  | inl hit ↦ absurd (ground (arith, h, hit))
  | inr miss ↦ rw miss (ap (◌∷◌ b) (delete_absent a bs (ground (arith, h, miss))))
]

-- The two maps lose the same key.
delete-addrs :
    (a : Addr) (cs : List Conn)
    → count a (addrs cs) ≤ 1
    → addrs (Conns.delete a cs) ≡ Lookup.delete a (addrs cs)
unfolding Conns.delete Lookup.delete count
delete-addrs a [] one = refl
delete-addrs a (c ∷ cs) one = elim (Bool-cases (bytes_eq a c.addr)) [
  | inl hit ↦ rw hit (sym (delete_absent a (addrs cs) (ground (arith, one, hit))))
  | inr miss ↦ rw miss (ap (◌∷◌ c.addr) (delete-addrs a cs (ground (arith, one, miss))))
]

pub find_absent : (a : Addr) (cs : List Conn) → count a (addrs cs) ≡ 0 → find a cs ≡ none
unfolding find count
find_absent a [] h = refl
find_absent a (c ∷ cs) h = elim (Bool-cases (bytes_eq a c.addr)) [
  | inl hit ↦ absurd (ground (arith, h, hit))
  | inr miss ↦ rw miss (find_absent a cs (ground (arith, h, miss)))
]

absent_find : (a : Addr) (cs : List Conn) → find a cs ≡ none → count a (addrs cs) ≡ 0
unfolding find count
absent_find a [] h = refl
absent_find a (c ∷ cs) h = elim (Bool-cases (bytes_eq a c.addr)) [
  | inl hit ↦ absurd (ground (arith, h, hit))
  | inr miss ↦ rw miss (absent_find a cs (rw miss at h))
]

pub has-count_pos : (a : Addr) (xs : List Addr) → has a xs ≡ true → 1 ≤ count a xs
unfolding count
has-count_pos a [] h = absurd (cc)
has-count_pos a (b ∷ bs) h = elim (Bool-cases (bytes_eq a b)) [
  | inl hit ↦ rw hit (omega arith)
  | inr miss ↦ rw miss (has-count_pos a bs (rw miss at h))
]

-- At most one connection has the address, and none while it is dialled.
pub one_key : (a : Addr) (w : Whole) → IsBook w.book → count a w.book.connections ≤ 1
one_key a w b = omega (arith, b.one_connection a)

conn_closed-conns : (left : ℕ) (r : Running) → (conn_closed left r).conns ≡ left
unfolding conn_closed stop_handlers
conn_closed-conns left r = ground arith

stop-conns : (r : Running) → (Handlers.stop r).conns ≡ r.conns
unfolding Handlers.stop stop_handlers
stop-conns r = ground arith

joined_keys :
    (c : Conn) (r : Consumer)
    → count c.addr (addrs r.connections) ≡ 0
    → addrs (add_conn c r).connections ≡ c.addr ∷ Lookup.delete c.addr (addrs r.connections)
unfolding add_conn
joined_keys c r h =
    let conns = c ∷ Conns.delete c.addr r.connections in
    let keys = c.addr ∷ Lookup.delete c.addr (addrs r.connections) in
    maybe_all-kept (HasKeys keys) (send_rdy-HasKeys keys) (addrs conns)
      (record r { connections = conns })
      (ap (◌∷◌ c.addr) (delete-addrs c.addr r.connections (omega (arith, h))))

module _ (top : ℕ) where
  -- An address that is dialled has no connection yet.
  not_joined :
      (w : Whole) (a : Addr)
      → has a w.book.pending_connections ≡ true
      → Agrees top w
      → count a w.book.connections ≡ 0
  not_joined w a dialled v =
      omega (arith, v.booked.one_connection a, has-count_pos a w.book.pending_connections dialled)

  pub not_found :
      (w : Whole) (a : Addr)
      → has a w.book.pending_connections ≡ true
      → Agrees top w
      → find a w.account.connections ≡ none
  not_found w a dialled v =
      find_absent a w.account.connections (ap (count a) v.keys ∙ not_joined w a dialled v)

  join-Agrees :
      (w : Whole) (c : Conn)
      → c.rdy_count ≡ pos 0
      → neg_part c.max_rdy_count ≡ 0
      → c.written ≡ []
      → has c.addr w.book.pending_connections ≡ true
      → Agrees top w
      → Agrees top (join_conn c w)
  unfolding join_conn join_connections
  join-Agrees w c fresh limit unwritten dialled v =
      let absent = not_joined w c.addr dialled v in
      let no_key : count c.addr (addrs w.account.connections) ≡ 0 =
        ap (count c.addr) v.keys ∙ absent in
      let unchanged = delete_absent c.addr w.book.connections absent in
      let new = not_found w c.addr dialled v in
      record {
        held = Step-IsHeld top (History.Step.joins w.account c fresh new unwritten) limit v.held;
        booked = Step-IsBook (Steps.Step.join w.book c.addr dialled) v.booked;
        keys =
            joined_keys c w.account no_key
            ∙ ap (λ (xs : List Addr). c.addr ∷ Lookup.delete c.addr xs) v.keys;
        number = omega (arith, v.number, ap length unchanged);
      }

  close-Agrees :
      (w : Whole) (c : Conn) → IsOwn c w.account → Agrees top w → Agrees top (on_conn_close c w)
  unfolding on_conn_close Joining.on_conn_close Lookup.on_conn_close
  close-Agrees w c own v =
      let one : count c.addr (addrs w.account.connections) ≤ 1 =
        omega (arith, ap (count c.addr) v.keys, one_key c.addr w v.booked) in
      record {
        held = Step-IsHeld top (History.Step.closes w.account c) own v.held;
        booked = Step-IsBook (Steps.Step.close w.book c.addr) v.booked;
        keys =
            delete-addrs c.addr w.account.connections one
            ∙ ap (λ (xs : List Addr). Lookup.delete c.addr xs) v.keys;
        number = conn_closed-conns _ w.running;
      }

  stop-Agrees : (w : Whole) → Agrees top w → Agrees top (stop w)
  unfolding stop
  stop-Agrees w v = record {
    held = Step-IsHeld top (History.Step.stops w.account) tt v.held;
    booked = Step-IsBook (Steps.Step.stop w.book) v.booked;
    keys = v.keys;
    number = stop-conns w.running ∙ v.number;
  }

  Step-Agrees : {w w' : Whole} → Step w w' → Agrees top w → Agrees top w'
  Step-Agrees (Step.account_moves w s on tame) v = record {
    held = Step-IsHeld top s tame v.held;
    booked = v.booked;
    keys = account-HasKeys w.book.connections s on v.keys;
    number = v.number;
  }
  Step-Agrees (Step.book_moves w s on) v =
      let same = book-same s on in
      record {
        held = v.held;
        booked = Step-IsBook s v.booked;
        keys = v.keys ∙ sym same;
        number = v.number ∙ ap length (sym same);
      }
  Step-Agrees (Step.running_moves w s on) v = record {
    held = v.held;
    booked = v.booked;
    keys = v.keys;
    number = running-same s on ∙ v.number;
  }
  Step-Agrees (Step.joins w c fresh limit unwritten dialled _) v =
      join-Agrees w c fresh limit unwritten dialled v
  Step-Agrees (Step.closes w c own) v = close-Agrees w c own v
  Step-Agrees (Step.stops w) v = stop-Agrees w v

-- A new consumer, with the parts that it starts with.
abbrev pub new_whole : Consumer → Whole
new_whole r = record { account = r; book = new_lookup; running = new_running }

pub agrees :
    (top : ℕ) (r : Consumer) {w : Whole}
    → r.connections ≡ []
    → IsHeld top r
    → Reach (new_whole r) w
    → Agrees top w
agrees top r none_yet h Reach.start = record {
  held = h;
  booked = Reach-IsBook Steps.Reach.start;
  keys = ap addrs none_yet;
  number = refl;
}
agrees top r none_yet h (Reach.step reach s) = Step-Agrees top s (agrees top r none_yet h reach)
