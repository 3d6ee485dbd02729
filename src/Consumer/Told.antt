-- ===== src/Consumer/Told.antt =====
-- consumer.go, conn.go: what an nsqd reads off the commands that it is sent.
use go_nsq.Base.{
  ℕ, ◌≡◌, ◌⊎◌, inl, inr, refl, sym, ap, ◌∙◌, true, ◌&&◌, List, [], ◌∷◌, some, arith, Bool-cases,
  if◌then◌else◌, codes,
}
use go_nsq.Base.Int.{ℤ, pos, negsuc, eqb_ℤ}
use go_nsq.Base.Bytes.{bytes_eq, All}
use go_nsq.Base.Decimal.{atoi, atoi-itoa}
use go_nsq.Command.{Command, ready}
use go_nsq.Consumer.{Consumer, write_command, set_rdy, store_rdy, send_rdy}
use go_nsq.Consumer.Conns.{Conn, Addr, find, modify, All-modify}

abbrev first : List (List ℕ) → List ℕ
first [] = []
first (p ∷ ps) = p

-- The count of the last RDY, read as a daemon does; 0 before the first.
unfoldable pub daemon_rdy : List Command → ℤ
daemon_rdy [] = pos 0
daemon_rdy (c ∷ cs) = if bytes_eq c.name (codes "RDY") then atoi (first c.params) else daemon_rdy cs

-- The nsqd of an open connection has been told its RDY count.
abbrev pub IsTold : Conn → Type 0
IsTold c = (c.close_flag ≡ true) ⊎ (daemon_rdy c.written ≡ c.rdy_count)

eqb_ℤ-eq : (a b : ℤ) → eqb_ℤ a b ≡ true → a ≡ b
eqb_ℤ-eq (pos m) (pos n) h = ap pos (ground (arith, h))
eqb_ℤ-eq (pos m) (negsuc n) h = absurd (ground (arith, h))
eqb_ℤ-eq (negsuc m) (pos n) h = absurd (ground (arith, h))
eqb_ℤ-eq (negsuc m) (negsuc n) h = ap negsuc (ground (arith, h))

daemon_rdy-ready : (n : ℤ) (cs : List Command) → daemon_rdy (ready n ∷ cs) ≡ n
unfolding daemon_rdy ready bytes_eq
daemon_rdy-ready n cs = atoi-itoa n

modify-modify :
    (a : Addr) (f g : Conn → Conn) (cs : List Conn)
    → ((c : Conn) → (g c).addr ≡ c.addr)
    → modify a f (modify a g cs) ≡ modify a (λ c. f (g c)) cs
unfolding modify
modify-modify a f g [] h = refl
modify-modify a f g (c ∷ cs) h = elim (Bool-cases (bytes_eq a c.addr)) [
  | inl hit ↦ rw (hit, h c, hit) refl
  | inr miss ↦ rw (miss, miss) (ap (◌∷◌ c) (modify-modify a f g cs h))
]

-- The count is stored and the command written, or the connection closed.
sent-IsTold :
    (c : Conn) (n : ℤ) (r : Consumer)
    → All IsTold r.connections
    → All IsTold (write_command c.addr (ready n) (store_rdy c n r)).0.connections
unfolding write_command store_rdy set_rdy
sent-IsTold c n r v = elim (Bool-cases (r.world.write_fails r.world.writes)) [
  | inl fails ↦
      rw
        (
          fails,
          modify-modify c.addr (λ d. record d { close_flag = true }) (set_rdy r.world.now n)
              r.connections (λ d. refl),
        )
        (All-modify IsTold c.addr _ r.connections (λ d _ _. inl refl) v)
  | inr works ↦
      rw
        (
          works,
          modify-modify c.addr (λ d. record d { written = ready n ∷ d.written })
              (set_rdy r.world.now n) r.connections (λ d. refl),
        )
        (All-modify IsTold c.addr _ r.connections (λ d _ _. inr (daemon_rdy-ready n d.written)) v)
]

same-IsTold :
    (c : Conn) (n : ℤ) (r : Consumer)
    → find c.addr r.connections ≡ some c
    → n ≡ c.rdy_count
    → All IsTold r.connections
    → All IsTold (store_rdy c n r).connections
unfolding store_rdy set_rdy
same-IsTold c n r e h v =
    All-modify IsTold c.addr (set_rdy r.world.now n) r.connections
      (λ d found w.
        let same : d ≡ c = ground arith in
        elim w [ inl shut ↦ inl shut | inr told ↦ inr (told ∙ rw same (sym h)) ])
      v

-- sendRDY keeps every nsqd told.
pub send_rdy-IsTold :
    (c : Conn) (n : ℤ) (r : Consumer)
    → find c.addr r.connections ≡ some c
    → All IsTold r.connections
    → All IsTold (send_rdy c n r).0.connections
unfolding send_rdy
send_rdy-IsTold c n r e v = elim (Bool-cases (eqb_ℤ n (pos 0) && eqb_ℤ c.rdy_count (pos 0))) [
  | inl none_yet ↦ rw none_yet v
  | inr other ↦ elim (Bool-cases (eqb_ℤ n c.rdy_count)) [
    | inl same ↦ rw (other, same) (same-IsTold c n r e (eqb_ℤ-eq n c.rdy_count same) v)
    | inr new ↦ rw (other, new) (sent-IsTold c n r v)
  ]
]
