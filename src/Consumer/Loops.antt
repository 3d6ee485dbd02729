-- ===== src/Consumer/Loops.antt =====
-- consumer.go: the loops over the connections keep the account and stay within max-in-flight.
use go_nsq.Base.{
  ℕ, ◌*◌, ◌^◌, ◌≤◌, ◌<◌, ◌≡◌, refl, ap, ◌⊎◌, inl, inr, ◌||◌, List, [], ◌∷◌, some, arith, Bool-cases,
  Option-cases, length,
}
use go_nsq.Base.Int.{ℤ, pos, pos_part, eqb_ℤ}
use go_nsq.Base.Words.{wrap32_id}
use go_nsq.Consumer.{
  Consumer, in_backoff, in_backoff_timeout, share, per_conn, per_conn_max_in_flight,
}
use go_nsq.Consumer.Conns.{Conn, Addr, find, addrs}
use go_nsq.Consumer.Rdy.{
  update_rdy, update_all, maybe_update_rdy, maybe_update_all, change_max_in_flight,
}
use go_nsq.Consumer.Account.{Inv, Kept, cap, total, pos_eta}
use go_nsq.Consumer.Bounds.{Bounded, Kept-refl, Kept-trans}
use go_nsq.Consumer.Budget.{update_rdy-Bounded, update_rdy_gone}

-- The account is kept, and the total does not rise above max-in-flight.
pub record Stable (r r' : Consumer) : Type 0 where
  pub inv : Inv r'
  pub kept : Kept r r'
  pub capped : (total r' ≤ total r) ⊎ (total r' ≤ cap r)

pub Bounded-Stable : {r r' : Consumer} (n : ℕ) → Bounded r r' n → Stable r r'
Bounded-Stable n b = record { inv = b.inv; kept = b.kept; capped = b.capped }

pub Stable-refl : (r : Consumer) → Inv r → Stable r r
Stable-refl r v = record { inv = v; kept = Kept-refl r; capped = inl (omega arith) }

pub Stable-trans : {r s t : Consumer} → Stable r s → Stable s t → Stable r t
Stable-trans b c = record {
  inv = c.inv;
  kept = Kept-trans b.kept c.kept;
  capped = omega (arith, b.capped, c.capped, ap pos_part b.kept.cap_kept);
}

pub update_all-Stable :
    (conns : List Addr) (n : ℕ) (r : Consumer) → Inv r → Stable r (update_all conns (pos n) r)
unfolding update_all
update_all-Stable [] n r v = Stable-refl r v
update_all-Stable (a ∷ rest) n r v =
    let first = Bounded-Stable n (update_rdy-Bounded a n r v) in
    Stable-trans first (update_all-Stable rest n (update_rdy a (pos n) r).0 first.inv)

-- Each connection's share: at most max-in-flight, at least 1, and together at most max-in-flight
-- unless there are more connections than that.
pub share_bounds :
    (b n : ℕ)
    → 0 < n
    → (share b n ≤ b)
      × (0 < b → (1 ≤ share b n) × ((n * share b n ≤ b) ⊎ ((share b n ≡ 1) × (b < n))))
unfolding share
share_bounds b n h = grind arith

-- With a connection at hand the count is between 0 and max-in-flight.
pub per_conn_pos :
    (b n : ℕ) (nan : ℤ) → 0 < n → (k : ℕ) × (per_conn (pos b) n nan ≡ pos k) × (k ≤ b)
unfolding per_conn
per_conn_pos b n nan h = (share b n, ground arith, (share_bounds b n h).0)

pub find-length : (a : Addr) (cs : List Conn) (c : Conn) → find a cs ≡ some c → 0 < length cs
unfolding find
find-length a [] c e = cc
find-length a (x ∷ cs) c e = omega arith

-- The count of each connection, as a number.
pub per_conn_count :
    (r : Consumer)
    → Inv r
    → 0 < length r.connections
    → (k : ℕ) × (per_conn_max_in_flight r ≡ pos k) × (k ≤ cap r)
unfolding per_conn_max_in_flight
per_conn_count r v h = rw (pos_eta r.max_in_flight v.cap_nonneg) (per_conn_pos (cap r) _ _ h)

sent-Stable :
    (a : Addr) (r : Consumer) → Inv r → Stable r (update_rdy a (per_conn_max_in_flight r) r).0
sent-Stable a r v = elim (Option-cases (find a r.connections)) [
  | inl e ↦ rw (update_rdy_gone a (per_conn_max_in_flight r) r e) (Stable-refl r v)
  | inr (c, e) ↦
      let (k, count, _) = per_conn_count r v (find-length a r.connections c e) in
      rw count (Bounded-Stable k (update_rdy-Bounded a k r v))
]

pub maybe_update_rdy-Stable : (a : Addr) (r : Consumer) → Inv r → Stable r (maybe_update_rdy a r)
unfolding maybe_update_rdy
maybe_update_rdy-Stable a r v = elim (Bool-cases (in_backoff r || in_backoff_timeout r)) [
  | inl off ↦ rw off (Stable-refl r v)
  | inr on ↦ rw on (sent-Stable a r v)
]

pub maybe_update_all-Stable :
    (conns : List Addr) (r : Consumer) → Inv r → Stable r (maybe_update_all conns r)
unfolding maybe_update_all
maybe_update_all-Stable [] r v = Stable-refl r v
maybe_update_all-Stable (a ∷ rest) r v =
    let first = maybe_update_rdy-Stable a r v in
    Stable-trans first (maybe_update_all-Stable rest (maybe_update_rdy a r) first.inv)

capped-Inv : (n : ℕ) (r : Consumer) → n < 2 ^ 31 → Inv r → Inv (record r { max_in_flight = pos n })
capped-Inv n r h v = record {
  conns_valid = v.conns_valid;
  total_exact = v.total_exact;
  total_small = v.total_small;
  cap_nonneg = refl;
  cap_small = h;
}

-- On a consumer whose account holds, a new max-in-flight from 0 to 2 ^ 31 - 1 keeps the account
-- and is the cap from then on: the total rises at most to it. What is above a lowered cap may
-- stay.
pub change_max_in_flight_lem :
    (n : ℕ) (r : Consumer)
    → n < 2 ^ 31
    → Inv r
    → Inv (change_max_in_flight (pos n) r)
      × (cap (change_max_in_flight (pos n) r) ≡ n)
      × ((total (change_max_in_flight (pos n) r) ≤ total r)
          ⊎ (total (change_max_in_flight (pos n) r) ≤ n))
unfolding change_max_in_flight
change_max_in_flight_lem n r h v =
    let wrapped = wrap32_id (pos n) h in
    let start = record r { max_in_flight = pos n } in
    let sent = maybe_update_all-Stable (addrs r.connections) start (capped-Inv n r h v) in
    rw wrapped (elim (Bool-cases (eqb_ℤ r.max_in_flight (pos n))) [
      | inl same ↦ rw same (v, ground (arith, v.cap_nonneg), inl (omega arith))
      | inr new ↦ rw new (sent.inv, ap pos_part sent.kept.cap_kept, sent.capped)
    ])

pub change_max_in_flight-Kept :
    (n : ℕ) (r : Consumer)
    → n < 2 ^ 31
    → Inv r
    → let r' = change_max_in_flight (pos n) r in
      (r'.backoff_duration ≡ r.backoff_duration)
      × (r'.backoff_counter ≡ r.backoff_counter)
      × (r'.resume_timers ≡ r.resume_timers)
      × (r'.config ≡ r.config)
unfolding change_max_in_flight
change_max_in_flight-Kept n r h v =
    let wrapped = wrap32_id (pos n) h in
    let start = record r { max_in_flight = pos n } in
    let kept = (maybe_update_all-Stable (addrs r.connections) start (capped-Inv n r h v)).kept in
    rw wrapped (elim (Bool-cases (eqb_ℤ r.max_in_flight (pos n))) [
      | inl same ↦ rw same (refl, refl, refl, refl)
      | inr new ↦ rw new (kept.duration_kept, kept.counter_kept, kept.timers_kept, kept.config_kept)
    ])
