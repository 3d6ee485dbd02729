-- ===== src/Consumer/Quiet.antt =====
-- consumer.go: after RDY 0 went to all connections, none is left with a count.
use go_nsq.Base.{
  ◌≡◌, ◌⊎◌, inl, inr, refl, ap, ◌∙◌, Bool, true, false, List, [], ◌∷◌, Option, none, some, arith,
  Bool-cases, Option-cases, ◌||◌, if◌then◌else◌,
}
use go_nsq.Base.Int.{ℤ, pos, negsuc, neg_part, ltb_ℤ, eqb_ℤ, ◌+ℤ◌, ◌-ℤ◌}
use go_nsq.Base.Bytes.{bytes_eq, bytes_eq_iff}
use go_nsq.Base.Words.{wrap64}
use go_nsq.Command.{Command, ready}
use go_nsq.Consumer.{
  Consumer, write_command, set_rdy, store_rdy, send_rdy, delete_timer, Signal, in_backoff_timeout,
}
use go_nsq.Consumer.Conns.{Conn, Addr, find, modify, addrs, All-find, find-addr}
use go_nsq.Consumer.Rdy.{admit_rdy, update_open, update_rdy, update_all}
use go_nsq.Consumer.Account.{IsConn, Inv, Inv-transfer}
use go_nsq.Consumer.Budget.{
  update_rdy_gone, update_rdy_closing, update_rdy_open, update_rdy-Bounded,
}
use go_nsq.Consumer.Backoff.{next_counter, apply_counter, backoff, start_stop_continue_backoff}

-- Closing, or told not to send messages.
abbrev pub IsQuiet : Conn → Type 0
IsQuiet c = (c.close_flag ≡ true) ⊎ (c.rdy_count ≡ pos 0)

abbrev pub IsQuietAt : Option Conn → Type 0
IsQuietAt none = Unit
IsQuietAt (some c) = IsQuiet c

module _ (a : Addr) (f : Conn → Conn) (same : (c : Conn) → (f c).addr ≡ c.addr) where
  -- A change that quiets, at the address where it is made.
  quiet_there : (cs : List Conn) → ((c : Conn) → IsQuiet (f c)) → IsQuietAt (find a (modify a f cs))
  unfolding find modify
  quiet_there [] q = tt
  quiet_there (c ∷ cs) q = elim (Bool-cases (bytes_eq a c.addr)) [
    | inl hit ↦ rw (hit, same c, hit) (q c)
    | inr miss ↦ rw (miss, miss) (quiet_there cs q)
  ]

  -- A change that keeps quiet connections quiet, at any address.
  quiet_kept :
      (b : Addr) (cs : List Conn)
      → ((c : Conn) → IsQuiet c → IsQuiet (f c))
      → IsQuietAt (find b cs)
      → IsQuietAt (find b (modify a f cs))
  unfolding find modify
  quiet_kept b [] q h = tt
  quiet_kept b (c ∷ cs) q h = elim (Bool-cases (bytes_eq a c.addr)) [
    | inl hit ↦ rw hit (elim (Bool-cases (bytes_eq b c.addr)) [
      | inl found ↦ rw (same c, found) (q c (rw found at h))
      | inr other ↦ rw (same c, other) (rw other at h)
    ])
    | inr miss ↦ rw miss (elim (Bool-cases (bytes_eq b c.addr)) [
      | inl found ↦ rw found (rw found at h)
      | inr other ↦ rw other (quiet_kept b cs q (rw other at h))
    ])
  ]

-- Everything that was quiet still is.
abbrev Quieter : Consumer → Consumer → Type 0
Quieter r s = (b : Addr) → IsQuietAt (find b r.connections) → IsQuietAt (find b s.connections)

store_rdy-quiet : (c : Conn) (r : Consumer) → Quieter r (store_rdy c (pos 0) r)
unfolding store_rdy set_rdy
store_rdy-quiet c r b h = quiet_kept c.addr _ (λ d. refl) b r.connections (λ d _. inr refl) h

write_command-quiet :
    (a : Addr) (cmd : Command) (r : Consumer) → Quieter r (write_command a cmd r).0
unfolding write_command
write_command-quiet a cmd r b h = elim (Bool-cases (r.world.write_fails r.world.writes)) [
  | inl e ↦ rw e (quiet_kept a _ (λ d. refl) b r.connections (λ d _. inl refl) h)
  | inr e ↦ rw e (quiet_kept a _ (λ d. refl) b r.connections (λ d q. q) h)
]

store_rdy-quiet_there :
    (c : Conn) (r : Consumer) → IsQuietAt (find c.addr (store_rdy c (pos 0) r).connections)
unfolding store_rdy set_rdy
store_rdy-quiet_there c r = quiet_there c.addr _ (λ d. refl) r.connections (λ d. inr refl)

-- A consumer after an update: quiet at the address, and nowhere less quiet.
abbrev Quieted : Addr → Consumer → Consumer → Type 0
Quieted a r s = IsQuietAt (find a s.connections) × Quieter r s

send_rdy-quiet :
    (c : Conn) (r : Consumer)
    → find c.addr r.connections ≡ some c
    → Quieted c.addr r (send_rdy c (pos 0) r).0
unfolding send_rdy
send_rdy-quiet c r e =
    let s = store_rdy c (pos 0) r in
    elim (Bool-cases (eqb_ℤ c.rdy_count (pos 0))) [
      | inl idle ↦
          let zero_rdy : c.rdy_count ≡ pos 0 = ground (arith, idle) in
          rw idle (rw e (inr zero_rdy), λ b h. h)
      | inr busy ↦ rw busy (elim (Bool-cases (eqb_ℤ (pos 0) c.rdy_count)) [
        | inl same ↦ rw same (store_rdy-quiet_there c r, store_rdy-quiet c r)
        | inr differs ↦ rw differs (
          write_command-quiet c.addr (ready (pos 0)) s c.addr (store_rdy-quiet_there c r),
          λ b h. write_command-quiet c.addr (ready (pos 0)) s b (store_rdy-quiet c r b h),
        )
      ])
    ]

admit_zero :
    (c : Conn) (possible : ℤ) (r : Consumer) → admit_rdy c (pos 0) possible r ≡ send_rdy c (pos 0) r
unfolding admit_rdy
admit_zero c (pos n) r = ground arith
admit_zero c (negsuc n) r = ground arith

uncut_zero :
    (limit : ℤ) → neg_part limit ≡ 0 → (if ltb_ℤ limit (pos 0) then limit else pos 0) ≡ pos 0
uncut_zero (pos n) h = ground arith
uncut_zero (negsuc n) h = absurd (omega (arith, h))

update_open_zero :
    (c : Conn) (r : Consumer)
    → neg_part c.max_rdy_count ≡ 0
    → update_open c (pos 0) r
      ≡ send_rdy c (pos 0) (record r { rdy_retry_timers = delete_timer c.addr r.rdy_retry_timers })
unfolding update_open
update_open_zero c r limit =
    ap
      (λ (k : ℤ).
        admit_rdy c k (wrap64 (wrap64 (r.max_in_flight -ℤ r.total_rdy_count) +ℤ c.rdy_count))
          (record r { rdy_retry_timers = delete_timer c.addr r.rdy_retry_timers }))
      (uncut_zero c.max_rdy_count limit)
    ∙ admit_zero c _ _

update_open-quiet :
    (c : Conn) (r : Consumer)
    → neg_part c.max_rdy_count ≡ 0
    → find c.addr r.connections ≡ some c
    → Quieted c.addr r (update_open c (pos 0) r).0
update_open-quiet c r limit e =
    rw (update_open_zero c r limit)
      (send_rdy-quiet c (record r { rdy_retry_timers = delete_timer c.addr r.rdy_retry_timers }) e)

update_rdy-quiet : (a : Addr) (r : Consumer) → Inv r → Quieted a r (update_rdy a (pos 0) r).0
update_rdy-quiet a r v = elim (Option-cases (find a r.connections)) [
  | inl e ↦ rw (update_rdy_gone a (pos 0) r e) (rw e tt, λ b h. h)
  | inr (c, e) ↦ elim (Bool-cases c.close_flag) [
    | inl shut ↦ rw (update_rdy_closing a (pos 0) r c e shut) (rw e (inl shut), λ b h. h)
    | inr running ↦
        let same : a ≡ c.addr = (bytes_eq_iff a c.addr).0 (find-addr a r.connections e) in
        let valid : IsConn c = All-find IsConn a r.connections v.conns_valid e in
        rw (update_rdy_open a (pos 0) r c e running, same)
          (update_open-quiet c r valid.max_nonneg (rw same at e))
  ]
]

abbrev listed : Addr → List Addr → Bool
listed a [] = false
listed a (b ∷ bs) = bytes_eq a b || listed a bs

listed-find : (a : Addr) (cs : List Conn) → (find a cs ≡ none) ⊎ (listed a (addrs cs) ≡ true)
unfolding find
listed-find a [] = inl refl
listed-find a (c ∷ cs) = ground (arith, listed-find a cs)

update_all-quiet :
    (conns : List Addr) (a : Addr) (r : Consumer)
    → Inv r
    → IsQuietAt (find a r.connections) ⊎ (listed a conns ≡ true)
    → IsQuietAt (find a (update_all conns (pos 0) r).connections)
unfolding update_all
update_all-quiet [] a r v (inl h) = h
update_all-quiet [] a r v (inr h) = absurd (cc)
update_all-quiet (b ∷ rest) a r v h =
    let (there, kept) = update_rdy-quiet b r v in
    let s = (update_rdy b (pos 0) r).0 in
    let after : Inv s = (update_rdy-Bounded b 0 r v).inv in
    elim (Bool-cases (bytes_eq a b)) [
      | inl hit ↦
          let same : a ≡ b = (bytes_eq_iff a b).0 hit in
          update_all-quiet rest a s after (inl (rw same there))
      | inr miss ↦
          update_all-quiet rest a s after
            (elim h [ inl quiet ↦ inl (kept a quiet) | inr later ↦ inr (rw miss at later) ])
    ]

not_zero : (z : ℤ) → ltb_ℤ (pos 0) z ≡ true → eqb_ℤ z (pos 0) ≡ false
not_zero (pos n) h = ground arith
not_zero (negsuc n) h = ground arith

-- On a consumer whose account holds and that does not wait, when a signal makes the backoff
-- counter positive, every connection in the map is closing or has RDY 0 afterwards.
pub start_stop_continue_backoff-IsQuietAt :
    (signal : Signal) (r : Consumer) (a : Addr)
    → Inv r
    → in_backoff_timeout r ≡ false
    → ltb_ℤ (pos 0) (next_counter r.config signal r.backoff_counter).0 ≡ true
    → IsQuietAt (find a (start_stop_continue_backoff signal r).connections)
unfolding start_stop_continue_backoff apply_counter backoff
start_stop_continue_backoff-IsQuietAt signal r a v ready on =
    let s = record r { backoff_counter = (next_counter r.config signal r.backoff_counter).0 } in
    let positive : eqb_ℤ s.backoff_counter (pos 0) ≡ false = not_zero s.backoff_counter on in
    rw ready (
      rw (positive, on)
        (update_all-quiet (addrs r.connections) a s (Inv-transfer s v refl refl refl)
          (elim (listed-find a r.connections) [
            | inl gone ↦ inl (rw gone tt)
            | inr there ↦ inr there
          ])))
