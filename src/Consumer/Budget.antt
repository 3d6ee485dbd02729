-- ===== src/Consumer/Budget.antt =====
-- consumer.go: updateRDY keeps the account, and stays within max-in-flight.
use go_nsq.Base.{
  ℕ, ◌+◌, ◌-◌, ◌≤◌, ◌<◌, ◌≡◌, refl, inl, inr, true, false, List, ◌∷◌, none, some, arith, Bool-cases,
  Option-cases, if◌then◌else◌, ltb, ◌==◌,
}
use go_nsq.Base.Int.{ℤ, pos, negsuc, pos_part, neg_part, ◌+ℤ◌, ◌-ℤ◌, ltb_ℤ, leb_ℤ, eqb_ℤ, sub_ℕ}
use go_nsq.Base.Bytes.{bytes_eq_iff}
use go_nsq.Base.Words.{wrap64, wrap64_room}
use go_nsq.Consumer.{Consumer, closing, over_max_in_flight, send_rdy, delete_timer}
use go_nsq.Consumer.Conns.{Conn, Addr, find, All-find, find-addr, rdy-le-sum}
use go_nsq.Consumer.Rdy.{schedule_retry, admit_rdy, update_open, update_rdy}
use go_nsq.Consumer.Account.{IsConn, Inv, Inv-transfer, cap, total, pos_eta}
use go_nsq.Consumer.Bounds.{Bounded, Bounded-refl, Bounded-trans, Bounded-mono, send_rdy-Bounded}
use native.Mathlib.Decide.{dec_lt}

room_pos :
    (top total old : ℕ)
    → total < top + old
    → (ltb_ℤ (pos 0) (sub_ℕ (top + old) total) ≡ true)
      × (sub_ℕ (top + old) total ≡ pos (top + old - total))
room_pos top total old h = ground arith

room_none :
    (top total old : ℕ)
    → top + old ≤ total
    → (ltb_ℤ (pos 0) (sub_ℕ (top + old) total) ≡ false)
      × (leb_ℤ (sub_ℕ (top + old) total) (pos 0) ≡ true)
room_none top total old h = ground arith

admit_rdy_room :
    (c : Conn) (n k : ℕ) (r : Consumer)
    → 0 < k
    → admit_rdy c (pos n) (pos k) r ≡ send_rdy c (pos (if ltb k n then k else n)) r
unfolding admit_rdy
admit_rdy_room c n k r h = ground arith

admit_rdy_none :
    (c : Conn) (n : ℕ) (possible : ℤ) (r : Consumer)
    → ltb_ℤ (pos 0) possible ≡ false
    → leb_ℤ possible (pos 0) ≡ true
    → admit_rdy c (pos n) possible r ≡ (
        if n == 0
        then send_rdy c (pos n) r
        else (schedule_retry c (pos n) r, some over_max_in_flight))
unfolding admit_rdy
admit_rdy_none c n possible r h k = ground arith

-- Timers are no part of the account.
retimed-Bounded :
    (r : Consumer) (timers : List (Addr × ℤ)) (n : ℕ)
    → Inv r
    → Bounded r (record r { rdy_retry_timers = timers }) n
retimed-Bounded r timers n v = record {
  inv = Inv-transfer _ v refl refl refl;
  kept = record {
    cap_kept = refl;
    duration_kept = refl;
    counter_kept = refl;
    timers_kept = refl;
    stop_kept = refl;
    config_kept = refl;
    need_kept = refl;
    addrs_kept = refl;
  };
  capped = inl (omega arith);
  grows = omega arith;
}

schedule_retry-Bounded :
    (c : Conn) (count : ℤ) (r : Consumer) (n : ℕ) → Inv r → Bounded r (schedule_retry c count r) n
unfolding schedule_retry
schedule_retry-Bounded c count r n v = elim (Bool-cases (eqb_ℤ c.rdy_count (pos 0))) [
  | inl z ↦ rw z (retimed-Bounded r ((c.addr, count) ∷ r.rdy_retry_timers) n v)
  | inr p ↦ rw p (Bounded-refl r n v)
]

module _ (c : Conn) (n : ℕ) (r : Consumer) (v : Inv r) (e : find c.addr r.connections ≡ some c)
    (fits : n ≤ pos_part c.max_rdy_count) where
  admit_some :
      (k : ℕ)
      → 0 < k
      → total r + k ≡ cap r + pos_part c.rdy_count
      → Bounded r (admit_rdy c (pos n) (pos k) r).0 n
  admit_some k h room = rw (admit_rdy_room c n k r h) (elim (Bool-cases (ltb k n)) [
    | inl cut ↦ rw cut (
        Bounded-mono k n (ground arith)
          (send_rdy-Bounded c k r v e (ground arith) (inr (omega (arith, room)))))
    | inr whole ↦ rw whole (send_rdy-Bounded c n r v e fits (inr (ground (arith, room))))
  ])

  admit_none :
      (possible : ℤ)
      → ltb_ℤ (pos 0) possible ≡ false
      → leb_ℤ possible (pos 0) ≡ true
      → Bounded r (admit_rdy c (pos n) possible r).0 n
  admit_none possible h k = rw (admit_rdy_none c n possible r h k) (elim (Bool-cases (n == 0)) [
    | inl z ↦ rw z (send_rdy-Bounded c n r v e fits (inl (ground arith)))
    | inr p ↦ rw p (schedule_retry-Bounded c (pos n) r n v)
  ])

  admit_rdy-Bounded :
      Bounded r (admit_rdy c (pos n) (sub_ℕ (cap r + pos_part c.rdy_count) (total r)) r).0 n
  admit_rdy-Bounded = elim (dec_lt (total r) (cap r + pos_part c.rdy_count)) [
    | yes h ↦
        rw ((room_pos (cap r) (total r) (pos_part c.rdy_count) h).1)
          (admit_some (cap r + pos_part c.rdy_count - total r) (omega arith) (omega arith))
    | no h ↦
        let (below, none_left) = room_none (cap r) (total r) (pos_part c.rdy_count) (omega arith) in
        admit_none _ below none_left
  ]

pub update_rdy_gone :
    (a : Addr) (count : ℤ) (r : Consumer)
    → find a r.connections ≡ none
    → update_rdy a count r ≡ (r, some closing)
unfolding update_rdy
update_rdy_gone a count r e = ground arith

pub update_rdy_closing :
    (a : Addr) (count : ℤ) (r : Consumer) (c : Conn)
    → find a r.connections ≡ some c
    → c.close_flag ≡ true
    → update_rdy a count r ≡ (r, some closing)
unfolding update_rdy
update_rdy_closing a count r c e shut = ground arith

pub update_rdy_open :
    (a : Addr) (count : ℤ) (r : Consumer) (c : Conn)
    → find a r.connections ≡ some c
    → c.close_flag ≡ false
    → update_rdy a count r ≡ update_open c count r
unfolding update_rdy
update_rdy_open a count r c e running = ground arith

-- maxPossibleRdy, with nothing wrapped.
pub possible_rdy :
    (r : Consumer) (c : Conn)
    → Inv r
    → IsConn c
    → pos_part c.rdy_count ≤ total r
    → wrap64 (wrap64 (r.max_in_flight -ℤ r.total_rdy_count) +ℤ c.rdy_count)
      ≡ sub_ℕ (cap r + pos_part c.rdy_count) (total r)
possible_rdy r c v w h =
    rw (v.total_exact, pos_eta r.max_in_flight v.cap_nonneg, pos_eta c.rdy_count w.rdy_nonneg)
      (wrap64_room (cap r) (total r) (pos_part c.rdy_count) v.cap_small v.total_small
        (omega (arith, v.total_small)))

pub find_self :
    (a : Addr) (cs : List Conn) (c : Conn) → find a cs ≡ some c → find c.addr cs ≡ some c
find_self a cs c e = rw ((bytes_eq_iff a c.addr).0 (find-addr a cs e)) at e

cut_count :
    (z : ℤ) (n : ℕ)
    → neg_part z ≡ 0
    → ltb (pos_part z) n ≡ true
    → (if ltb_ℤ z (pos n) then z else pos n) ≡ pos (pos_part z)
cut_count (pos m) n e h = ground arith
cut_count (negsuc m) n e h = absurd (omega arith)

whole_count :
    (z : ℤ) (n : ℕ)
    → neg_part z ≡ 0
    → ltb (pos_part z) n ≡ false
    → (if ltb_ℤ z (pos n) then z else pos n) ≡ pos n
whole_count (pos m) n e h = ground arith
whole_count (negsuc m) n e h = absurd (omega arith)

-- The count that nsqd accepts.
capped_count :
    (c : Conn) (n : ℕ)
    → IsConn c
    → (k : ℕ) × ((if ltb_ℤ c.max_rdy_count (pos n) then c.max_rdy_count else pos n) ≡ pos k)
      × (k ≤ n)
      × (k ≤ pos_part c.max_rdy_count)
capped_count c n w = elim (Bool-cases (ltb (pos_part c.max_rdy_count) n)) [
  | inl over ↦ (
    pos_part c.max_rdy_count,
    cut_count c.max_rdy_count n w.max_nonneg over,
    ground arith,
    omega arith,
  )
  | inr under ↦ (n, whole_count c.max_rdy_count n w.max_nonneg under, omega arith, ground arith)
]

update_open-Bounded :
    (c : Conn) (n : ℕ) (r : Consumer)
    → Inv r
    → find c.addr r.connections ≡ some c
    → Bounded r (update_open c (pos n) r).0 n
unfolding update_open
update_open-Bounded c n r v e =
    let valid : IsConn c = All-find IsConn c.addr r.connections v.conns_valid e in
    let old = rdy-le-sum c.addr r.connections e in
    let (k, same, less, fits) = capped_count c n valid in
    let stopped = record r { rdy_retry_timers = delete_timer c.addr r.rdy_retry_timers } in
    let start = retimed-Bounded r (delete_timer c.addr r.rdy_retry_timers) 0 v in
    rw (same, possible_rdy r c v valid old)
      (Bounded-mono (0 + k) n (omega arith)
        (Bounded-trans 0 k start (admit_rdy-Bounded c k stopped start.inv e fits)))

-- On a consumer whose account holds, updateRDY with a count that is not negative keeps the
-- account exact, never raises the total above max-in-flight, and raises it by no more than that
-- count.
pub update_rdy-Bounded :
    (a : Addr) (n : ℕ) (r : Consumer) → Inv r → Bounded r (update_rdy a (pos n) r).0 n
update_rdy-Bounded a n r v = elim (Option-cases (find a r.connections)) [
  | inl e ↦ rw (update_rdy_gone a (pos n) r e) (Bounded-refl r n v)
  | inr (c, e) ↦ elim (Bool-cases c.close_flag) [
    | inl shut ↦ rw (update_rdy_closing a (pos n) r c e shut) (Bounded-refl r n v)
    | inr running ↦
        rw (update_rdy_open a (pos n) r c e running)
          (update_open-Bounded c n r v (find_self a r.connections c e))
  ]
]
