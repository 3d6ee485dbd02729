-- ===== src/Whole/Parts.antt =====
-- consumer.go: what one part does alone leaves the map of connections as it is.
use go_nsq.Base.{
  ◌-◌, ◌≡◌, inl, inr, refl, sym, ap, ◌∙◌, true, false, ◌&&◌, List, Option, none, some, arith,
  Bool-cases, Option-cases, length, ◌==◌,
}
use go_nsq.Base.Int.{ℤ, pos, eqb_ℤ}
use go_nsq.Command.{ready}
use go_nsq.Consumer.{Consumer, set_rdy, store_rdy, send_rdy, close_conn, store_traffic}
use go_nsq.Consumer.Conns.{Conn, Addr, find, addrs}
use go_nsq.Consumer.Account.{addrs-modify, write_command-Kept}
use go_nsq.Consumer.History
use go_nsq.Consumer.Sending.{
  signal-kept, resume_fires-kept, redistribute_rdy-kept, change-kept, retry-kept,
}
use go_nsq.Lookup.{
  Lookup, index_of, disconnect_from_nsqd, disconnect_from_lookupd, add_lookupd, insert_lookupd, ok,
  cleanup_connection, has,
}
use go_nsq.Lookup.Steps
use go_nsq.Lookup.Steps.{begin_connect-ok, next-ok}
use go_nsq.Handlers
use go_nsq.Handlers.{Running, exit, handler_ends}
use go_nsq.Whole.{alone_account, alone_book, alone_running}

-- The addresses of the connections are `keys`.
abbrev pub HasKeys : List Addr → List Conn → Type 0
HasKeys keys cs = addrs cs ≡ keys

store-HasKeys :
    (keys : List Addr) (c : Conn) (n : ℤ) (r : Consumer)
    → HasKeys keys r.connections
    → HasKeys keys (store_rdy c n r).connections
unfolding store_rdy set_rdy
store-HasKeys keys c n r h = addrs-modify c.addr _ r.connections (λ d. refl) ∙ h

pub send_rdy-HasKeys :
    (keys : List Addr) (c : Conn) (n : ℤ) (r : Consumer)
    → find c.addr r.connections ≡ some c
    → HasKeys keys r.connections
    → HasKeys keys (send_rdy c n r).0.connections
unfolding send_rdy
send_rdy-HasKeys keys c n r e h = elim (Bool-cases (eqb_ℤ n (pos 0) && eqb_ℤ c.rdy_count (pos 0))) [
  | inl none_yet ↦ rw none_yet h
  | inr other ↦ elim (Bool-cases (eqb_ℤ n c.rdy_count)) [
    | inl same ↦ rw (other, same) (store-HasKeys keys c n r h)
    | inr new ↦
        rw (other, new)
          ((write_command-Kept c.addr (ready n) (store_rdy c n r)).addrs_kept
            ∙ store-HasKeys keys c n r h)
  ]
]

pub account-HasKeys :
    (keys : List Addr) {r r' : Consumer} (s : History.Step r r')
    → alone_account s ≡ true
    → HasKeys keys r.connections
    → HasKeys keys r'.connections
account-HasKeys keys (History.Step.turns r x) on h = h
account-HasKeys keys (History.Step.signals r signal) on h =
    signal-kept (HasKeys keys) (send_rdy-HasKeys keys) signal r h
account-HasKeys keys (History.Step.resumes r) on h =
    resume_fires-kept (HasKeys keys) (send_rdy-HasKeys keys) r h
account-HasKeys keys (History.Step.redistributes r) on h =
    redistribute_rdy-kept (HasKeys keys) (send_rdy-HasKeys keys) r h
account-HasKeys keys (History.Step.changes r z) on h =
    change-kept (HasKeys keys) (send_rdy-HasKeys keys) z r h
account-HasKeys keys (History.Step.retries r a n e) on h =
    retry-kept (HasKeys keys) (send_rdy-HasKeys keys) a r h
account-HasKeys keys (History.Step.joins r c _ _ _) on h = absurd (cc)
account-HasKeys keys (History.Step.closes r a) on h = absurd (cc)
account-HasKeys keys (History.Step.starts_closing r a) on h =
    unfold close_conn in addrs-modify a _ r.connections (λ d. refl) ∙ h
account-HasKeys keys (History.Step.has_traffic r a in_flight last_msg) on h =
    unfold store_traffic in addrs-modify a _ r.connections (λ d. refl) ∙ h
account-HasKeys keys (History.Step.stops r) on h = absurd (cc)

disconnect_same :
    (addr : Addr) (l : Lookup) → (disconnect_from_nsqd addr l).2.connections ≡ l.connections
unfolding disconnect_from_nsqd
disconnect_same addr l = elim (Option-cases (index_of addr l.nsqd_tcp_addrs)) [
  | inl e ↦ rw (e, disconnect_from_nsqd) refl
  | inr (i, e) ↦ rw (e, disconnect_from_nsqd) refl
]

add_same :
    (parsed : Option Addr) (l : Lookup) {l' : Lookup}
    → (add_lookupd parsed l).0 ≡ ok l'
    → l'.connections ≡ l.connections
unfolding add_lookupd
add_same none l h = absurd (ground arith)
add_same (some a) l {l'} h = elim (Bool-cases (has a l.lookupd_http_addrs)) [
  | inl known ↦
      let same : record l { connected_flag = true } ≡ l' = ground arith in
      ap (λ (x : Lookup). x.connections) (sym same)
  | inr fresh ↦
      let same : insert_lookupd a l ≡ l' = ground arith in
      ap (λ (x : Lookup). x.connections) (sym same)
]

remove_same :
    (parsed : Option Addr) (l : Lookup)
    → (disconnect_from_lookupd parsed l).1.connections ≡ l.connections
unfolding disconnect_from_lookupd
remove_same none l = refl
remove_same (some a) l = elim (Option-cases (index_of a l.lookupd_http_addrs)) [
  | inl e ↦ rw (e, disconnect_from_lookupd) refl
  | inr (i, e) ↦ elim (Bool-cases (length l.lookupd_http_addrs == 1)) [
    | inl only ↦ rw (e, disconnect_from_lookupd) (rw only refl)
    | inr others ↦ rw (e, disconnect_from_lookupd) (rw others refl)
  ]
]

pub book-same :
    {l l' : Lookup} (s : Steps.Step l l') → alone_book s ≡ true → l'.connections ≡ l.connections
book-same (Steps.Step.add_handlers l n) on = refl
book-same (Steps.Step.stop l) on = absurd (cc)
book-same {l} (Steps.Step.begin addr h) on =
    ap (λ (x : Lookup). x.connections) (sym (begin_connect-ok addr l h).2)
book-same (Steps.Step.fail l addr _) on = unfold cleanup_connection in refl
book-same (Steps.Step.join l addr _) on = absurd (cc)
book-same (Steps.Step.close l addr) on = absurd (cc)
book-same (Steps.Step.disconnect l addr) on = disconnect_same addr l
book-same {l} (Steps.Step.add parsed h) on = add_same parsed l h
book-same (Steps.Step.remove l parsed) on = remove_same parsed l
book-same {l} (Steps.Step.ask endpoint h) on =
    ap (λ (x : Lookup). x.connections) (sym (next-ok l endpoint h))

exit_same : (r : Running) → (exit r).conns ≡ r.conns
unfolding exit
exit_same r = elim (Bool-cases r.exit_handler_used) [
  | inl used ↦ rw used refl
  | inr unused ↦ rw unused refl
]

handler_same : (r : Running) → (handler_ends r).conns ≡ r.conns
unfolding handler_ends
handler_same r = elim (Bool-cases (r.handlers - 1 == 0)) [
  | inl last ↦ rw last (exit_same (record r { handlers = r.handlers - 1 }))
  | inr more ↦ rw more refl
]

pub running-same :
    {p q : Running} (s : Handlers.Step p q) → alone_running s ≡ true → q.conns ≡ p.conns
running-same (Handlers.Step.add_handlers r n _) on = refl
running-same (Handlers.Step.set_connected r) on = refl
running-same (Handlers.Step.add_conn r _) on = absurd (cc)
running-same (Handlers.Step.close_conn r left _) on = absurd (cc)
running-same (Handlers.Step.stop_consumer r) on = absurd (cc)
running-same (Handlers.Step.end_handler r _ _) on = handler_same r
running-same (Handlers.Step.timer_fires r _) on = exit_same (record r { exit_timer = false })
running-same (Handlers.Step.first_lookupd r _ _) on = unfold Handlers.start_lookupd_loop in refl
running-same (Handlers.Step.lookupd_wakes_up r _) on = unfold Handlers.lookupd_round in refl
running-same (Handlers.Step.lookupd_exits r _ _) on = unfold Handlers.lookupd_ends in refl
running-same (Handlers.Step.rdy_loop_exits r _ _) on = unfold Handlers.rdy_loop_ends in refl
running-same (Handlers.Step.close_stop_chan r _ _ _) on = refl
