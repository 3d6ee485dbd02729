-- ===== src/Consumer/Redistribution.antt =====
-- consumer.go: redistributeRDY keeps the account, and in backoff lets one message through.
use go_nsq.Base.{
  ℕ, zero, suc, ◌+◌, ◌-◌, ◌%◌, ◌^◌, ◌≤◌, ◌<◌, ◌≡◌, refl, ap, ◌⊎◌, inl, inr, false, ◌&&◌, List, [],
  ◌∷◌, Option, none, some, arith, Bool-cases, Option-cases, if◌then◌else◌, ltb, leb, length,
  get_elem?,
}
use go_nsq.Base.Int.{pos, negsuc, pos_part, ◌-ℤ◌, ltb_ℤ, sub_ℕ}
use go_nsq.Base.Words.{wrap64}
use go_nsq.Consumer.{Consumer, drawn, draw_next, in_backoff, in_backoff_timeout}
use go_nsq.Consumer.Conns.{Addr, find, addrs}
use go_nsq.Consumer.Rdy.{
  gives_up, give_up_one, give_up, give_one, spread, available_max_in_flight, redistribute,
  redistribute_rdy, needs_redistribution,
}
use go_nsq.Consumer.Account.{Inv, Inv-transfer, cap, total, pos_eta}
use go_nsq.Consumer.Bounds.{Bounded, Bounded-refl, Bounded-trans, Bounded-mono}
use go_nsq.Consumer.Budget.{update_rdy-Bounded}
use go_nsq.Consumer.Loops.{Stable, Bounded-Stable}

-- Connections give up their counts: the total only falls.
give_up_one-Bounded : (a : Addr) (r : Consumer) → Inv r → Bounded r (give_up_one a r) 0
unfolding give_up_one
give_up_one-Bounded a r v = elim (Option-cases (find a r.connections)) [
  | inl e ↦ rw (e, give_up_one) (Bounded-refl r 0 v)
  | inr (c, e) ↦
      rw (e, give_up_one)
        (elim (Bool-cases (gives_up c r)) [
          | inl idle ↦ rw idle (update_rdy-Bounded a 0 r v)
          | inr busy ↦ rw busy (Bounded-refl r 0 v)
        ])
]

give_up-Bounded : (conns : List Addr) (r : Consumer) → Inv r → Bounded r (give_up conns r) 0
unfolding give_up
give_up-Bounded [] r v = Bounded-refl r 0 v
give_up-Bounded (a ∷ rest) r v =
    let first = give_up_one-Bounded a r v in
    Bounded-trans 0 0 first (give_up-Bounded rest (give_up_one a r) first.inv)

give_one-Bounded : (o : Option Addr) (r : Consumer) → Inv r → Bounded r (give_one o r) 1
unfolding give_one
give_one-Bounded none r v = Bounded-refl r 1 v
give_one-Bounded (some a) r v = update_rdy-Bounded a 1 r v

pub draw_next-Bounded : (r : Consumer) → Inv r → Bounded r (draw_next r) 0
unfolding draw_next
draw_next-Bounded r v = record {
  inv = Inv-transfer _ v refl refl refl;
  kept = record {
    cap_kept = refl;
    duration_kept = refl;
    counter_kept = refl;
    timers_kept = refl;
    stop_kept = refl;
    config_kept = refl;
    need_kept = refl;
    addrs_kept = refl;
  };
  capped = inl (omega arith);
  grows = omega arith;
}

one_less : (n : ℕ) → 0 < n → pos n -ℤ pos 1 ≡ pos (n - 1)
unfolding ◌-ℤ◌
one_less n h = ground arith

-- The rounds of the loop use up `n`, what was available.
spread-Bounded :
    (fuel : ℕ) (candidates : List Addr) (n : ℕ) (r : Consumer)
    → Inv r
    → Bounded r (spread fuel candidates (pos n) r) n
unfolding spread
spread-Bounded zero candidates n r v = Bounded-refl r n v
spread-Bounded (suc fuel) candidates n r v =
    let i = drawn r % length candidates in
    let next = draw_next-Bounded r v in
    let given = give_one-Bounded (get_elem? candidates i) (draw_next r) next.inv in
    elim (Bool-cases (ltb 0 (length candidates) && ltb_ℤ (pos 0) (pos n))) [
      | inl go ↦
          let e : pos n -ℤ pos 1 ≡ pos (n - 1) = one_less n (ground arith) in
          rw (go, e)
            (Bounded-mono (0 + 1 + (n - 1)) n (ground arith) (
              Bounded-trans (0 + 1) (n - 1) (Bounded-trans 0 1 next given)
                (spread-Bounded fuel _ (n - 1) _ given.inv)))
      | inr stop ↦ rw stop (Bounded-refl r n v)
    ]

spread_none :
    (fuel : ℕ) (candidates : List Addr) (n : ℕ) (r : Consumer)
    → spread fuel candidates (negsuc n) r ≡ r
unfolding spread
spread_none zero candidates n r = refl
spread_none (suc fuel) candidates n r = ground arith

-- What a total leaves of a cap.
room_left : (top t : ℕ) → top < 2 ^ 31 → t < 2 ^ 31 → wrap64 (pos top -ℤ pos t) ≡ sub_ℕ top t
unfolding wrap64 ◌-ℤ◌
room_left top t h k = ground arith

spread_room :
    (fuel : ℕ) (candidates : List Addr) (top : ℕ) (r : Consumer)
    → Inv r
    → Bounded r (spread fuel candidates (sub_ℕ top (total r)) r) (top - total r)
spread_room fuel candidates top r v = elim (Bool-cases (leb (total r) top)) [
  | inl fits ↦ rw fits (spread-Bounded fuel candidates (top - total r) r v)
  | inr over ↦ rw (over, spread_none fuel candidates (total r - top - 1) r) (Bounded-refl r _ v)
]

-- In backoff at most one message is let through, otherwise max-in-flight.
abbrev pub target : Consumer → ℕ
target r = if in_backoff r then 1 else cap r

in_backoff_kept :
    (r s : Consumer) → s.backoff_counter ≡ r.backoff_counter → in_backoff s ≡ in_backoff r
unfolding in_backoff
in_backoff_kept r s e = rw e refl

available_lem :
    (r s : Consumer)
    → Inv r
    → Inv s
    → s.backoff_counter ≡ r.backoff_counter
    → available_max_in_flight s r.max_in_flight ≡ sub_ℕ (target r) (total s)
unfolding available_max_in_flight
available_lem r s v w e = elim (Bool-cases (in_backoff r)) [
  | inl on ↦
      rw (in_backoff_kept r s e, on, w.total_exact)
        (room_left 1 (total s) (omega arith) w.total_small)
  | inr off ↦
      rw (in_backoff_kept r s e, off, w.total_exact, pos_eta r.max_in_flight v.cap_nonneg)
        (room_left (cap r) (total s) v.cap_small w.total_small)
]

-- A redistribution keeps the account. The total does not rise above max-in-flight, nor, in backoff,
-- above 1: it falls, stays, or ends within the target.
redistribute_lem :
    (r : Consumer)
    → Inv r
    → Stable r (redistribute r)
      × ((total (redistribute r) ≤ total r) ⊎ (total (redistribute r) ≤ target r))
unfolding redistribute
redistribute_lem r v =
    let conns = addrs r.connections in
    let fallen = give_up-Bounded conns r v in
    let given = spread_room (length conns) conns (target r) (give_up conns r) fallen.inv in
    let both = Bounded-trans 0 (target r - total (give_up conns r)) fallen given in
    rw (available_lem r (give_up conns r) v fallen.inv fallen.kept.counter_kept)
      (Bounded-Stable _ both, omega (arith, given.grows, fallen.grows))

need_cleared : (r : Consumer) → Inv r → Inv (record r { need_rdy_redistributed = false })
need_cleared r v = Inv-transfer _ v refl refl refl

-- What a round of the rdyLoop guarantees.
pub record Redistributed (r r' : Consumer) : Type 0 where
  pub inv : Inv r'
  pub cap_kept : cap r' ≡ cap r
  pub duration_kept : r'.backoff_duration ≡ r.backoff_duration
  pub counter_kept : r'.backoff_counter ≡ r.backoff_counter
  pub timers_kept : r'.resume_timers ≡ r.resume_timers
  pub config_kept : r'.config ≡ r.config
  pub within : (total r' ≤ total r) ⊎ (total r' ≤ target r)
  pub capped : (total r' ≤ total r) ⊎ (total r' ≤ cap r)

Redistributed-refl : (r : Consumer) → Inv r → Redistributed r r
Redistributed-refl r v = record {
  inv = v;
  cap_kept = refl;
  duration_kept = refl;
  counter_kept = refl;
  timers_kept = refl;
  config_kept = refl;
  within = inl (omega arith);
  capped = inl (omega arith);
}

redistributed :
    (r : Consumer)
    → Inv r
    → Redistributed r (redistribute (record r { need_rdy_redistributed = false }))
redistributed r v =
    let (stable, within) =
      redistribute_lem (record r { need_rdy_redistributed = false }) (need_cleared r v) in
    record {
      inv = stable.inv;
      cap_kept = ap pos_part stable.kept.cap_kept;
      duration_kept = stable.kept.duration_kept;
      counter_kept = stable.kept.counter_kept;
      timers_kept = stable.kept.timers_kept;
      config_kept = stable.kept.config_kept;
      within = unfold in_backoff in within;
      capped = stable.capped;
    }

-- On a consumer whose account holds, a round of the rdyLoop keeps it, leaves the backoff state
-- and max-in-flight alone, and raises the total at most to max-in-flight, in backoff at most to
-- 1.
pub redistribute_rdy-Redistributed : (r : Consumer) → Inv r → Redistributed r (redistribute_rdy r)
unfolding redistribute_rdy
redistribute_rdy-Redistributed r v = elim (Bool-cases (in_backoff_timeout r)) [
  | inl waiting ↦ rw waiting (Redistributed-refl r v)
  | inr ready ↦ elim (Bool-cases (ltb (length r.connections) 1)) [
    | inl alone ↦ rw (ready, alone) (Redistributed-refl r v)
    | inr some_conn ↦ elim (Bool-cases (needs_redistribution r)) [
      | inl needed ↦ rw (ready, some_conn, needed) (redistributed r v)
      | inr calm ↦ rw (ready, some_conn, calm) (Redistributed-refl r v)
    ]
  ]
]
