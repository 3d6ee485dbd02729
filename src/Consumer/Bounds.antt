-- ===== src/Consumer/Bounds.antt =====
-- consumer.go: sendRDY keeps the account, and stays within max-in-flight.
use go_nsq.Base.{ℕ, ◌+◌, ◌≤◌, ◌≡◌, refl, ap, ◌∙◌, ◌⊎◌, inl, inr, ◌&&◌, some, arith, Bool-cases}
use go_nsq.Base.Int.{pos, pos_part, eqb_ℤ}
use go_nsq.Command.{Command, ready}
use go_nsq.Consumer.{Consumer, write_command, store_rdy, send_rdy}
use go_nsq.Consumer.Conns.{Conn, Addr, find, rdy-le-sum}
use go_nsq.Consumer.Account.{
  Inv, Kept, cap, total, write_command-Kept, write_command-total, write_command-Inv,
  store_rdy-total, store_rdy-Kept, store_rdy-Inv,
}

-- An update from `r` to `r'` that may add `n`: the account is kept, the total does not rise above
-- max-in-flight, and it rises by `n` at most.
pub record Bounded (r r' : Consumer) (n : ℕ) : Type 0 where
  pub inv : Inv r'
  pub kept : Kept r r'
  pub capped : (total r' ≤ total r) ⊎ (total r' ≤ cap r)
  pub grows : total r' ≤ total r + n

pub Kept-refl : (r : Consumer) → Kept r r
Kept-refl r = record {
  cap_kept = refl;
  duration_kept = refl;
  counter_kept = refl;
  timers_kept = refl;
  stop_kept = refl;
  config_kept = refl;
  need_kept = refl;
  addrs_kept = refl;
}

pub Kept-trans : {r s t : Consumer} → Kept r s → Kept s t → Kept r t
Kept-trans k l = record {
  cap_kept = l.cap_kept ∙ k.cap_kept;
  duration_kept = l.duration_kept ∙ k.duration_kept;
  counter_kept = l.counter_kept ∙ k.counter_kept;
  timers_kept = l.timers_kept ∙ k.timers_kept;
  stop_kept = l.stop_kept ∙ k.stop_kept;
  config_kept = l.config_kept ∙ k.config_kept;
  need_kept = l.need_kept ∙ k.need_kept;
  addrs_kept = l.addrs_kept ∙ k.addrs_kept;
}

pub Bounded-refl : (r : Consumer) (n : ℕ) → Inv r → Bounded r r n
Bounded-refl r n v = record {
  inv = v;
  kept = Kept-refl r;
  capped = inl (omega arith);
  grows = omega arith;
}

pub Bounded-trans :
    {r s t : Consumer} (m n : ℕ) → Bounded r s m → Bounded s t n → Bounded r t (m + n)
Bounded-trans m n b c = record {
  inv = c.inv;
  kept = Kept-trans b.kept c.kept;
  capped = omega (arith, b.capped, c.capped, ap pos_part b.kept.cap_kept);
  grows = omega (arith, b.grows, c.grows);
}

pub Bounded-mono : {r s : Consumer} (m n : ℕ) → m ≤ n → Bounded r s m → Bounded r s n
Bounded-mono m n h b = record {
  inv = b.inv;
  kept = b.kept;
  capped = b.capped;
  grows = omega (arith, b.grows);
}

pub written-Bounded :
    {r s : Consumer} (n : ℕ) (a : Addr) (cmd : Command)
    → Bounded r s n
    → Bounded r (write_command a cmd s).0 n
written-Bounded {s = s} n a cmd b =
    let (same, _) = write_command-total a cmd s in
    record {
      inv = write_command-Inv a cmd s b.inv;
      kept = Kept-trans b.kept (write_command-Kept a cmd s);
      capped = rw same b.capped;
      grows = rw same b.grows;
    }

module _ (c : Conn) (n : ℕ) (r : Consumer) (v : Inv r) (e : find c.addr r.connections ≡ some c)
    (fits : n ≤ pos_part c.max_rdy_count)
    (room : (n ≡ 0) ⊎ (total r + n ≤ cap r + pos_part c.rdy_count)) where
  stored-Bounded : Bounded r (store_rdy c (pos n) r) n
  stored-Bounded =
      let old = rdy-le-sum c.addr r.connections e in
      let moved = store_rdy-total c n r e in
      record {
        inv = store_rdy-Inv c n r v e fits (omega (arith, room, v.total_small, v.cap_small));
        kept = store_rdy-Kept c n r;
        capped = omega (arith, room, moved);
        grows = omega (arith, moved);
      }

  pub send_rdy-Bounded : Bounded r (send_rdy c (pos n) r).0 n
  unfolding send_rdy
  send_rdy-Bounded = elim (Bool-cases (eqb_ℤ (pos n) (pos 0) && eqb_ℤ c.rdy_count (pos 0))) [
    | inl idle ↦ rw idle (Bounded-refl r n v)
    | inr busy ↦ elim (Bool-cases (eqb_ℤ (pos n) c.rdy_count)) [
      | inl same ↦ rw (busy, same) stored-Bounded
      | inr differs ↦ rw (busy, differs) (written-Bounded n c.addr (ready (pos n)) stored-Bounded)
    ]
  ]
