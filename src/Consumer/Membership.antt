-- ===== src/Consumer/Membership.antt =====
-- consumer.go: the account when a connection comes and when it goes.
use go_nsq.Base.{
  ◌+◌, ◌≤◌, ◌≡◌, ◌⊎◌, inl, inr, refl, sym, ap, ◌∙◌, List, [], ◌∷◌, none, some, arith, Bool-cases,
}
use go_nsq.Base.Int.{pos, pos_part, neg_part}
use go_nsq.Base.Bytes.{bytes_eq, All}
use go_nsq.Base.Words.{wrap64_exchange}
use go_nsq.Consumer.{Consumer}
use go_nsq.Consumer.Conns.{Conn, Addr, find, delete, addrs, sum_rdy, All-find, rdy-le-sum}
use go_nsq.Consumer.Account.{IsConn, Inv, cap, total, pos_eta}
use go_nsq.Consumer.Loops.{maybe_update_all-Stable}
use go_nsq.Consumer.Joining.{add_conn, on_conn_close}

delete-find-none : (a : Addr) (cs : List Conn) → find a cs ≡ none → delete a cs ≡ cs
unfolding find delete
delete-find-none a [] e = refl
delete-find-none a (c ∷ cs) e = elim (Bool-cases (bytes_eq a c.addr)) [
  | inl hit ↦ absurd (ground arith)
  | inr miss ↦ rw miss (ap (◌∷◌ c) (delete-find-none a cs (rw miss at e)))
]

sum_rdy-delete :
    (a : Addr) (cs : List Conn) {c : Conn}
    → find a cs ≡ some c
    → sum_rdy (delete a cs) + pos_part c.rdy_count ≡ sum_rdy cs
unfolding find delete
sum_rdy-delete a [] e = cc
sum_rdy-delete a (x ∷ cs) {c} e = ground (arith, sum_rdy-delete a cs {c = c})

pub All-delete {κ} :
    (P : Conn → Type κ) (a : Addr) (cs : List Conn) → All P cs → All P (delete a cs)
unfolding delete
All-delete P a [] h = tt
All-delete P a (c ∷ cs) h = elim (Bool-cases (bytes_eq a c.addr)) [
  | inl hit ↦ rw hit h.1
  | inr miss ↦ rw miss (h.0, All-delete P a cs h.1)
]

module _ (c : Conn) (r : Consumer) (fresh : c.rdy_count ≡ pos 0)
    (limit : neg_part c.max_rdy_count ≡ 0) (new : find c.addr r.connections ≡ none) where
  same_total : sum_rdy (c ∷ delete c.addr r.connections) ≡ total r
  same_total = rw (fresh, delete-find-none c.addr r.connections new) (omega arith)

  -- The consumer with its new connection, before any count is sent.
  joined-Inv : Inv r → Inv (record r { connections = c ∷ delete c.addr r.connections })
  joined-Inv v = record {
    conns_valid = (
      record {
        rdy_nonneg = rw fresh refl;
        max_nonneg = limit;
        rdy_capped = rw fresh (omega arith);
      },
      All-delete IsConn c.addr r.connections v.conns_valid,
    );
    total_exact = v.total_exact ∙ ap pos (sym same_total);
    total_small = rw same_total v.total_small;
    cap_nonneg = v.cap_nonneg;
    cap_small = v.cap_small;
  }

-- On a consumer whose account holds, adding a connection with RDY 0 and an address that is not in
-- the map keeps the account and max-in-flight, and raises the total at most to max-in-flight.
pub add_conn-Inv :
    (c : Conn) (r : Consumer)
    → c.rdy_count ≡ pos 0
    → neg_part c.max_rdy_count ≡ 0
    → find c.addr r.connections ≡ none
    → Inv r
    → Inv (add_conn c r)
      × (cap (add_conn c r) ≡ cap r)
      × ((total (add_conn c r) ≤ total r) ⊎ (total (add_conn c r) ≤ cap r))
unfolding add_conn
add_conn-Inv c r fresh limit new v =
    let conns = c ∷ delete c.addr r.connections in
    let same = same_total c r fresh limit new in
    let stable =
      maybe_update_all-Stable (addrs conns) (record r { connections = conns })
        (joined-Inv c r fresh limit new v) in
    (
      stable.inv,
      ap pos_part stable.kept.cap_kept,
      elim stable.capped [ inl less ↦ inl (omega (arith, less, same)) | inr capped ↦ inr capped ],
    )

pub add_conn-Settled :
    (c : Conn) (r : Consumer)
    → c.rdy_count ≡ pos 0
    → neg_part c.max_rdy_count ≡ 0
    → find c.addr r.connections ≡ none
    → Inv r
    → let r' = add_conn c r in
      (r'.backoff_duration ≡ r.backoff_duration)
      × (r'.backoff_counter ≡ r.backoff_counter)
      × (r'.resume_timers ≡ r.resume_timers)
      × (r'.config ≡ r.config)
unfolding add_conn
add_conn-Settled c r fresh limit new v =
    let conns = c ∷ delete c.addr r.connections in
    let kept =
      (maybe_update_all-Stable (addrs conns) (record r { connections = conns })
        (joined-Inv c r fresh limit new v)).kept in
    (kept.duration_kept, kept.counter_kept, kept.timers_kept, kept.config_kept)

pub on_conn_close-Settled :
    (c : Conn) (r : Consumer)
    → let r' = on_conn_close c r in
      (r'.backoff_duration ≡ r.backoff_duration)
      × (r'.backoff_counter ≡ r.backoff_counter)
      × (r'.resume_timers ≡ r.resume_timers)
      × (r'.config ≡ r.config)
unfolding on_conn_close
on_conn_close-Settled c r = (refl, refl, refl, refl)

-- The connection is the one stored under its address, or it never was in the map and none is stored.
abbrev pub IsOwn : Conn → Consumer → Type 0
IsOwn c r =
    (find c.addr r.connections ≡ some c)
    ⊎ ((find c.addr r.connections ≡ none) × (c.rdy_count ≡ pos 0))

stored-Inv :
    (c : Conn) (r : Consumer)
    → find c.addr r.connections ≡ some c
    → Inv r
    → Inv (on_conn_close c r) × (total (on_conn_close c r) + pos_part c.rdy_count ≡ total r)
unfolding on_conn_close
stored-Inv c r e v =
    let valid : IsConn c = All-find IsConn c.addr r.connections v.conns_valid e in
    let old : pos_part c.rdy_count ≤ total r = rdy-le-sum c.addr r.connections e in
    let less = sum_rdy-delete c.addr r.connections e in
    (
      record {
        conns_valid = All-delete IsConn c.addr r.connections v.conns_valid;
        total_exact =
            rw (v.total_exact, pos_eta c.rdy_count valid.rdy_nonneg)
              (wrap64_exchange (total r) 0 (pos_part c.rdy_count) old (omega (arith, v.total_small))
                  (omega arith)
                ∙ ap pos (omega (arith, less)));
        total_small = omega (arith, less, v.total_small);
        cap_nonneg = v.cap_nonneg;
        cap_small = v.cap_small;
      },
      less,
    )

absent-Inv :
    (c : Conn) (r : Consumer)
    → find c.addr r.connections ≡ none
    → c.rdy_count ≡ pos 0
    → Inv r
    → Inv (on_conn_close c r) × (total (on_conn_close c r) + pos_part c.rdy_count ≡ total r)
unfolding on_conn_close
absent-Inv c r e zero v =
    let same = ap sum_rdy (delete-find-none c.addr r.connections e) in
    (
      record {
        conns_valid = All-delete IsConn c.addr r.connections v.conns_valid;
        total_exact =
            rw (v.total_exact, zero)
              (wrap64_exchange (total r) 0 0 (omega arith) (omega (arith, v.total_small))
                  (omega arith)
                ∙ ap pos (omega (arith, same)));
        total_small = omega (arith, same, v.total_small);
        cap_nonneg = v.cap_nonneg;
        cap_small = v.cap_small;
      },
      omega (arith, same, ap pos_part zero),
    )

-- On a consumer whose account holds, a connection that closes and is stored under its address, or
-- has RDY 0 with none stored there, takes its RDY count out of the total, and the account stays
-- exact.
pub on_conn_close-Inv :
    (c : Conn) (r : Consumer)
    → IsOwn c r
    → Inv r
    → Inv (on_conn_close c r) × (total (on_conn_close c r) + pos_part c.rdy_count ≡ total r)
on_conn_close-Inv c r own v = elim own [
  | inl here ↦ stored-Inv c r here v
  | inr (absent, zero) ↦ absent-Inv c r absent zero v
]
