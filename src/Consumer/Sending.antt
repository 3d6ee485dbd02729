-- ===== src/Consumer/Sending.antt =====
-- consumer.go: the methods change the connections by sendRDY alone, so they keep what it keeps.
use go_nsq.Base.{
  ℕ, zero, suc, ◌+◌, ◌-◌, ◌==◌, ◌%◌, ◌≡◌, inl, inr, Bool, true, false, ◌&&◌, ◌||◌, List, [], ◌∷◌,
  ◌++◌, Option, none, some, Option-cases, if◌then◌else◌, length, take, drop, get_elem?, ltb,
}
use go_nsq.Base.Int.{ℤ, pos, ltb_ℤ, leb_ℤ, eqb_ℤ, ◌-ℤ◌}
use go_nsq.Base.Words.{wrap32}
use go_nsq.Consumer.{
  Consumer, RdyError, Signal, backoff_flag, continue_flag, resume_flag, send_rdy, in_backoff,
  in_backoff_timeout, per_conn_max_in_flight, drawn, draw_next, delete_timer, find_timer,
}
use go_nsq.Consumer.Conns.{Conn, Addr, find, addrs}
use go_nsq.Consumer.Rdy.{
  schedule_retry, admit_rdy, update_open, update_rdy, update_all, maybe_update_rdy,
  maybe_update_all, change_max_in_flight, retry_rdy, gives_up, give_up_one, give_up, give_one,
  spread, redistribute, redistribute_rdy, needs_redistribution,
}
use go_nsq.Consumer.Backoff.{
  apply_counter, start_stop_continue_backoff, next_counter, resumed, resume_at, resume,
  resume_fires,
}
use go_nsq.Consumer.Budget.{find_self}

if_keeps {κ} :
    {A : Type 0} (Q : A → Type κ) (b : Bool) {x y : A} → Q x → Q y → Q (if b then x else y)
if_keeps Q true h k = h
if_keeps Q false h k = k

-- What holds of the connections, and is kept when one of them is sent a count.
module _ {κ} (P : List Conn → Type κ)
    (sends : (c : Conn) (n : ℤ) (r : Consumer)
      → find c.addr r.connections ≡ some c
      → P r.connections
      → P (send_rdy c n r).0.connections) where
  abbrev Keeps : Consumer → Type κ
  Keeps r = P r.connections

  abbrev Returns : Consumer × Option RdyError → Type κ
  Returns x = P x.0.connections

  schedule-kept : (c : Conn) (n : ℤ) (r : Consumer) → Keeps r → Keeps (schedule_retry c n r)
  unfolding schedule_retry
  schedule-kept c n r h = if_keeps Keeps (eqb_ℤ c.rdy_count (pos 0)) h h

  admit-kept :
      (c : Conn) (n possible : ℤ) (r : Consumer)
      → find c.addr r.connections ≡ some c
      → Keeps r
      → Returns (admit_rdy c n possible r)
  unfolding admit_rdy
  admit-kept c n possible r e h =
      let n' = if ltb_ℤ (pos 0) possible && ltb_ℤ possible n then possible else n in
      if_keeps Returns (leb_ℤ possible (pos 0) && ltb_ℤ (pos 0) n') (schedule-kept c n' r h)
        (sends c n' r e h)

  pub update_rdy-kept : (a : Addr) (n : ℤ) (r : Consumer) → Keeps r → Returns (update_rdy a n r)
  unfolding update_rdy
  update_rdy-kept a n r h = elim (Option-cases (find a r.connections)) [
    | inl e ↦ rw (e, update_rdy) h
    | inr (c, e) ↦
        rw (e, update_rdy)
          (if_keeps Returns c.close_flag h (
            unfold update_open in
            admit-kept c _ _
              (record r { rdy_retry_timers = delete_timer c.addr r.rdy_retry_timers })
              (find_self a r.connections c e) h))
  ]

  pub update_all-kept :
      (list : List Addr) (n : ℤ) (r : Consumer) → Keeps r → Keeps (update_all list n r)
  unfolding update_all
  update_all-kept [] n r h = h
  update_all-kept (a ∷ list) n r h = update_all-kept list n _ (update_rdy-kept a n r h)

  maybe-kept : (a : Addr) (r : Consumer) → Keeps r → Keeps (maybe_update_rdy a r)
  unfolding maybe_update_rdy
  maybe-kept a r h =
      if_keeps Keeps (in_backoff r || in_backoff_timeout r) h
        (update_rdy-kept a (per_conn_max_in_flight r) r h)

  pub maybe_all-kept : (list : List Addr) (r : Consumer) → Keeps r → Keeps (maybe_update_all list r)
  unfolding maybe_update_all
  maybe_all-kept [] r h = h
  maybe_all-kept (a ∷ list) r h = maybe_all-kept list _ (maybe-kept a r h)

  pub change-kept : (n : ℤ) (r : Consumer) → Keeps r → Keeps (change_max_in_flight n r)
  unfolding change_max_in_flight
  change-kept n r h =
      if_keeps Keeps (eqb_ℤ r.max_in_flight (wrap32 n)) h
        (maybe_all-kept (addrs r.connections) (record r { max_in_flight = wrap32 n }) h)

  pub retry-kept : (a : Addr) (r : Consumer) → Keeps r → Keeps (retry_rdy a r)
  unfolding retry_rdy
  retry-kept a r h = elim (Option-cases (find_timer a r.rdy_retry_timers)) [
    | inl e ↦ rw (e, retry_rdy) h
    | inr (n, e) ↦ rw (e, retry_rdy) (update_rdy-kept a n r h)
  ]

  give_up_one-kept : (a : Addr) (r : Consumer) → Keeps r → Keeps (give_up_one a r)
  unfolding give_up_one
  give_up_one-kept a r h = elim (Option-cases (find a r.connections)) [
    | inl e ↦ rw (e, give_up_one) h
    | inr (c, e) ↦
        rw (e, give_up_one) (if_keeps Keeps (gives_up c r) (update_rdy-kept a (pos 0) r h) h)
  ]

  give_up-kept : (list : List Addr) (r : Consumer) → Keeps r → Keeps (give_up list r)
  unfolding give_up
  give_up-kept [] r h = h
  give_up-kept (a ∷ list) r h = give_up-kept list _ (give_up_one-kept a r h)

  give_one-kept : (o : Option Addr) (r : Consumer) → Keeps r → Keeps (give_one o r)
  unfolding give_one
  give_one-kept none r h = h
  give_one-kept (some a) r h = update_rdy-kept a (pos 1) r h

  spread-kept :
      (fuel : ℕ) (list : List Addr) (available : ℤ) (r : Consumer)
      → Keeps r
      → Keeps (spread fuel list available r)
  unfolding spread
  spread-kept zero list available r h = h
  spread-kept (suc fuel) list available r h =
      let i = drawn r % length list in
      let given = give_one-kept (get_elem? list i) (draw_next r) (unfold draw_next in h) in
      if_keeps Keeps (ltb 0 (length list) && ltb_ℤ (pos 0) available)
        (spread-kept fuel (take i list ++ drop (i + 1) list) (available -ℤ pos 1) _ given) h

  redistribute-kept : (r : Consumer) → Keeps r → Keeps (redistribute r)
  unfolding redistribute
  redistribute-kept r h =
      spread-kept _ (addrs r.connections) _ _ (give_up-kept (addrs r.connections) r h)

  pub redistribute_rdy-kept : (r : Consumer) → Keeps r → Keeps (redistribute_rdy r)
  unfolding redistribute_rdy
  redistribute_rdy-kept r h = if_keeps Keeps (in_backoff_timeout r) h (
      if_keeps Keeps (ltb (length r.connections) 1) h (
        if_keeps Keeps (needs_redistribution r)
          (redistribute-kept (record r { need_rdy_redistributed = false }) h) h))

  apply-kept : (updated : Bool) (r : Consumer) → Keeps r → Keeps (apply_counter updated r)
  unfolding apply_counter
  apply-kept updated r h =
      if_keeps Keeps (eqb_ℤ r.backoff_counter (pos 0) && updated)
        (update_all-kept (addrs r.connections) (per_conn_max_in_flight r) r h)
        (if_keeps Keeps (ltb_ℤ (pos 0) r.backoff_counter)
          (unfold go_nsq.Consumer.Backoff.backoff in
            update_all-kept (addrs r.connections) (pos 0) r h)
          h)

  pub signal-kept :
      (signal : Signal) (r : Consumer) → Keeps r → Keeps (start_stop_continue_backoff signal r)
  unfolding start_stop_continue_backoff
  signal-kept signal r h = if_keeps Keeps (in_backoff_timeout r) h (
      apply-kept (next_counter r.config signal r.backoff_counter).1
        (record r { backoff_counter = (next_counter r.config signal r.backoff_counter).0 }) h)

  resumed-kept : (x : Consumer × Option RdyError) → Returns x → Keeps (resumed x)
  unfolding resumed go_nsq.Consumer.Backoff.backoff
  resumed-kept (r, none) h = h
  resumed-kept (r, some e) h = h

  resume_at-kept : (o : Option Addr) (r : Consumer) → Keeps r → Keeps (resume_at o r)
  unfolding resume_at go_nsq.Consumer.Backoff.backoff
  resume_at-kept none r h = h
  resume_at-kept (some a) r h =
      resumed-kept (update_rdy a (pos 1) r) (update_rdy-kept a (pos 1) r h)

  resume-kept : (r : Consumer) → Keeps r → Keeps (resume r)
  unfolding resume go_nsq.Consumer.Backoff.backoff draw_next
  resume-kept r h = if_keeps Keeps r.stop_flag h (
      if_keeps Keeps (length r.connections == 0) h (
        resume_at-kept (get_elem? (addrs r.connections) (drawn r % length r.connections))
          (draw_next r) (unfold draw_next in h)))

  pub resume_fires-kept : (r : Consumer) → Keeps r → Keeps (resume_fires r)
  unfolding resume_fires
  resume_fires-kept r h =
      if_keeps Keeps (r.resume_timers == 0) h
        (resume-kept (record r { resume_timers = r.resume_timers - 1 }) h)
