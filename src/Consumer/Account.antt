-- ===== src/Consumer/Account.antt =====
-- consumer.go: the total RDY count is the sum of the counts of the connections, and stays small.
use go_nsq.Base.{
  ℕ, ◌+◌, ◌^◌, ◌≤◌, ◌<◌, ◌≡◌, refl, sym, ap, ◌∙◌, inl, inr, List, [], ◌∷◌, some, arith, Bool-cases,
}
use go_nsq.Base.Int.{ℤ, pos, negsuc, pos_part, neg_part}
use go_nsq.Base.Bytes.{All}
use go_nsq.Base.Words.{wrap64_exchange}
use go_nsq.Command.{Command}
use go_nsq.Consumer.{Consumer, write_command, set_rdy, store_rdy}
use go_nsq.Consumer.Conns.{
  Conn, Addr, find, modify, addrs, sum_rdy, All-find, All-modify, sum_rdy-modify, rdy-le-sum,
}
use mathlib.Core.Path.{subst}

-- A connection's RDY count lies between 0 and what nsqd accepts.
pub record IsConn (c : Conn) : Type 0 where
  pub rdy_nonneg : neg_part c.rdy_count ≡ 0
  pub max_nonneg : neg_part c.max_rdy_count ≡ 0
  pub rdy_capped : pos_part c.rdy_count ≤ pos_part c.max_rdy_count

pub record Inv (r : Consumer) : Type 0 where
  pub conns_valid : All IsConn r.connections
  pub total_exact : r.total_rdy_count ≡ pos (sum_rdy r.connections)
  pub total_small : sum_rdy r.connections < 2 ^ 31
  pub cap_nonneg : neg_part r.max_in_flight ≡ 0
  pub cap_small : pos_part r.max_in_flight < 2 ^ 31

-- The account reads three fields.
pub Inv-transfer :
    {r : Consumer} (s : Consumer)
    → Inv r
    → s.connections ≡ r.connections
    → s.total_rdy_count ≡ r.total_rdy_count
    → s.max_in_flight ≡ r.max_in_flight
    → Inv s
Inv-transfer s v conns count top = record {
  conns_valid = rw conns v.conns_valid;
  total_exact = rw (conns, count) v.total_exact;
  total_small = rw conns v.total_small;
  cap_nonneg = rw top v.cap_nonneg;
  cap_small = rw top v.cap_small;
}

abbrev pub cap : Consumer → ℕ
cap r = pos_part r.max_in_flight

abbrev pub total : Consumer → ℕ
total r = sum_rdy r.connections

pub pos_eta : (z : ℤ) → neg_part z ≡ 0 → z ≡ pos (pos_part z)
pos_eta (pos n) h = refl
pos_eta (negsuc n) h = absurd (omega arith)

-- What an update of RDY counts leaves alone.
pub record Kept (r r' : Consumer) : Type 0 where
  pub cap_kept : r'.max_in_flight ≡ r.max_in_flight
  pub duration_kept : r'.backoff_duration ≡ r.backoff_duration
  pub counter_kept : r'.backoff_counter ≡ r.backoff_counter
  pub timers_kept : r'.resume_timers ≡ r.resume_timers
  pub stop_kept : r'.stop_flag ≡ r.stop_flag
  pub config_kept : r'.config ≡ r.config
  pub need_kept : r'.need_rdy_redistributed ≡ r.need_rdy_redistributed
  pub addrs_kept : addrs r'.connections ≡ addrs r.connections

pub addrs-modify :
    (a : Addr) (f : Conn → Conn) (cs : List Conn)
    → ((c : Conn) → (f c).addr ≡ c.addr)
    → addrs (modify a f cs) ≡ addrs cs
unfolding modify
addrs-modify a f [] h = refl
addrs-modify a f (c ∷ cs) h = ground (arith, h c, addrs-modify a f cs h)

sum_rdy-modify_same :
    (a : Addr) (f : Conn → Conn) (cs : List Conn)
    → ((c : Conn) → (f c).rdy_count ≡ c.rdy_count)
    → sum_rdy (modify a f cs) ≡ sum_rdy cs
unfolding modify
sum_rdy-modify_same a f [] h = refl
sum_rdy-modify_same a f (c ∷ cs) h = ground (arith, h c, sum_rdy-modify_same a f cs h)

pub write_command-Kept :
    (a : Addr) (cmd : Command) (r : Consumer) → Kept r (write_command a cmd r).0
unfolding write_command
write_command-Kept a cmd r = elim (Bool-cases (r.world.write_fails r.world.writes)) [
  | inl e ↦ rw e (record {
    cap_kept = refl;
    duration_kept = refl;
    counter_kept = refl;
    timers_kept = refl;
    stop_kept = refl;
    config_kept = refl;
    need_kept = refl;
    addrs_kept = addrs-modify a _ r.connections (λ c. refl);
  })
  | inr e ↦ rw e (record {
    cap_kept = refl;
    duration_kept = refl;
    counter_kept = refl;
    timers_kept = refl;
    stop_kept = refl;
    config_kept = refl;
    need_kept = refl;
    addrs_kept = addrs-modify a _ r.connections (λ c. refl);
  })
]

pub write_command-total :
    (a : Addr) (cmd : Command) (r : Consumer)
    → (total (write_command a cmd r).0 ≡ total r)
      × ((write_command a cmd r).0.total_rdy_count ≡ r.total_rdy_count)
unfolding write_command
write_command-total a cmd r = elim (Bool-cases (r.world.write_fails r.world.writes)) [
  | inl e ↦ rw e (sum_rdy-modify_same a _ r.connections (λ c. refl), refl)
  | inr e ↦ rw e (sum_rdy-modify_same a _ r.connections (λ c. refl), refl)
]

-- A connection changes in a way that the account does not see.
pub modify-Inv :
    (a : Addr) (f : Conn → Conn) (r : Consumer)
    → ((c : Conn) → (f c).rdy_count ≡ c.rdy_count)
    → ((c : Conn) → (f c).max_rdy_count ≡ c.max_rdy_count)
    → Inv r
    → Inv (record r { connections = modify a f r.connections })
modify-Inv a f r rdy limit v =
    let same = sum_rdy-modify_same a f r.connections rdy in
    record {
      conns_valid =
          All-modify IsConn a f r.connections
            (λ c _ w. record {
              rdy_nonneg = rw (rdy c) w.rdy_nonneg;
              max_nonneg = rw (limit c) w.max_nonneg;
              rdy_capped = rw (rdy c, limit c) w.rdy_capped;
            })
            v.conns_valid;
      total_exact = v.total_exact ∙ ap pos (sym same);
      total_small = rw same v.total_small;
      cap_nonneg = v.cap_nonneg;
      cap_small = v.cap_small;
    }

pub write_command-Inv :
    (a : Addr) (cmd : Command) (r : Consumer) → Inv r → Inv (write_command a cmd r).0
unfolding write_command
write_command-Inv a cmd r v = elim (Bool-cases (r.world.write_fails r.world.writes)) [
  | inl e ↦ rw e (Inv-transfer _ (modify-Inv a _ r (λ c. refl) (λ c. refl) v) refl refl refl)
  | inr e ↦ rw e (Inv-transfer _ (modify-Inv a _ r (λ c. refl) (λ c. refl) v) refl refl refl)
]

pub store_rdy-total :
    (c : Conn) (n : ℕ) (r : Consumer)
    → find c.addr r.connections ≡ some c
    → total (store_rdy c (pos n) r) + pos_part c.rdy_count ≡ total r + n
unfolding store_rdy set_rdy
store_rdy-total c n r e = sum_rdy-modify c.addr _ r.connections e

pub store_rdy-Kept : (c : Conn) (n : ℕ) (r : Consumer) → Kept r (store_rdy c (pos n) r)
unfolding store_rdy set_rdy
store_rdy-Kept c n r = record {
  cap_kept = refl;
  duration_kept = refl;
  counter_kept = refl;
  timers_kept = refl;
  stop_kept = refl;
  config_kept = refl;
  need_kept = refl;
  addrs_kept = addrs-modify c.addr _ r.connections (λ c. refl);
}

pub store_rdy-Inv :
    (c : Conn) (n : ℕ) (r : Consumer)
    → Inv r
    → find c.addr r.connections ≡ some c
    → n ≤ pos_part c.max_rdy_count
    → total r + n < 2 ^ 31 + pos_part c.rdy_count
    → Inv (store_rdy c (pos n) r)
unfolding store_rdy set_rdy
store_rdy-Inv c n r v e hn hs =
    let valid : IsConn c = All-find IsConn c.addr r.connections v.conns_valid e in
    let old : pos_part c.rdy_count ≤ total r = rdy-le-sum c.addr r.connections e in
    let moved = sum_rdy-modify c.addr (set_rdy r.world.now (pos n)) r.connections e in
    record {
      conns_valid =
          All-modify IsConn c.addr (set_rdy r.world.now (pos n)) r.connections
            (λ d found w.
              let same : d ≡ c = ground arith in
              record {
                rdy_nonneg = refl;
                max_nonneg = w.max_nonneg;
                rdy_capped = subst (λ x. n ≤ pos_part x.max_rdy_count) (sym same) hn;
              })
            v.conns_valid;
      total_exact =
          rw (v.total_exact, pos_eta c.rdy_count valid.rdy_nonneg)
            (wrap64_exchange (total r) n (pos_part c.rdy_count) old (omega arith) (omega arith)
              ∙ ap pos (omega (arith, moved)));
      total_small = omega (arith, moved);
      cap_nonneg = v.cap_nonneg;
      cap_small = v.cap_small;
    }
