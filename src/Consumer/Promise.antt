-- ===== src/Consumer/Promise.antt =====
-- consumer.go, conn.go: the account is what the nsqds were told.
use go_nsq.Base.{ℕ, ◌+◌, ◌≡◌, inl, inr, refl, List, [], ◌∷◌, if◌then◌else◌}
use go_nsq.Base.Int.{pos, pos_part}
use go_nsq.Base.Bytes.{All}
use go_nsq.Consumer.{Consumer, close_conn, store_traffic}
use go_nsq.Consumer.Conns.{Conn, addrs, delete, All-modify}
use go_nsq.Consumer.Joining.{add_conn, on_conn_close}
use go_nsq.Consumer.Membership.{All-delete}
use go_nsq.Consumer.Sending.{
  signal-kept, resume_fires-kept, redistribute_rdy-kept, change-kept, retry-kept, maybe_all-kept,
}
use go_nsq.Consumer.Told.{daemon_rdy, IsTold, send_rdy-IsTold}
use go_nsq.Consumer.History.{Step, Reach}

-- What the nsqds of the open connections may send, by what they were told.
abbrev pub promised : List Conn → ℕ
promised [] = 0
promised (c ∷ cs) = (if c.close_flag then 0 else pos_part (daemon_rdy c.written)) + promised cs

abbrev Told : List Conn → Type 0
Told = All IsTold

join-Told :
    (c : Conn) (r : Consumer)
    → c.rdy_count ≡ pos 0
    → c.written ≡ []
    → Told r.connections
    → Told (add_conn c r).connections
unfolding add_conn
join-Told c r zero fresh v =
    let new : IsTold c = unfold daemon_rdy in inr (rw (fresh, zero) refl) in
    let conns = c ∷ delete c.addr r.connections in
    maybe_all-kept Told send_rdy-IsTold (addrs conns) (record r { connections = conns })
      (new, All-delete IsTold c.addr r.connections v)

close-Told : (c : Conn) (r : Consumer) → Told r.connections → Told (on_conn_close c r).connections
unfolding on_conn_close
close-Told c r v = All-delete IsTold c.addr r.connections v

Step-Told : {r r' : Consumer} → Step r r' → Told r.connections → Told r'.connections
Step-Told (Step.turns r x) v = v
Step-Told (Step.signals r signal) v = signal-kept Told send_rdy-IsTold signal r v
Step-Told (Step.resumes r) v = resume_fires-kept Told send_rdy-IsTold r v
Step-Told (Step.redistributes r) v = redistribute_rdy-kept Told send_rdy-IsTold r v
Step-Told (Step.changes r z) v = change-kept Told send_rdy-IsTold z r v
Step-Told (Step.retries r a n e) v = retry-kept Told send_rdy-IsTold a r v
Step-Told (Step.joins r c zero new fresh) v = join-Told c r zero fresh v
Step-Told (Step.closes r c) v = close-Told c r v
Step-Told (Step.starts_closing r a) v =
    unfold close_conn in All-modify IsTold a _ r.connections (λ c _ _. inl refl) v
Step-Told (Step.has_traffic r a in_flight last_msg) v =
    unfold store_traffic in
    All-modify IsTold a _ r.connections
      (λ c _ w. elim w [ inl shut ↦ inl shut | inr told ↦ inr told ]) v
Step-Told (Step.stops r) v = v

told : {s r : Consumer} → Told s.connections → Reach s r → Told r.connections
told v Reach.start = v
told v (Reach.step reach event _) = Step-Told event (told v reach)
