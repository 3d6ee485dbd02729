-- ===== src/Consumer/Fuel.antt =====
-- consumer.go: the loop of redistributeRDY comes to its end.
use go_nsq.Base.{
  ℕ, zero, suc, ◌+◌, ◌%◌, ◌≤◌, ◌<◌, ◌≡◌, refl, ◌&&◌, false, Bool-cases, inl, inr, List, ◌++◌, arith,
  length, take, drop, get_elem?, length-append, length-take, length-drop, ltb,
}
use go_nsq.Base.Int.{ℤ, pos, ◌-ℤ◌, ltb_ℤ}
use go_nsq.Consumer.{Consumer, drawn, draw_next}
use go_nsq.Consumer.Conns.{Addr}
use go_nsq.Consumer.Rdy.{give_one, spread}
use native.Mathlib.Nat.{mod-lt}

-- Taking one candidate away leaves one less.
length-without :
    (i : ℕ) (candidates : List Addr)
    → i < length candidates
    → suc (length (take i candidates ++ drop (i + 1) candidates)) ≡ length candidates
length-without i candidates h = omega (
  arith,
  length-append {0} (take i candidates) (drop (i + 1) candidates),
  length-take {0} i candidates,
  length-drop {0} (i + 1) candidates,
)

-- The loop that spreads RDY counts ends by itself within as many rounds as there are candidates:
-- more fuel changes nothing.
pub spread-enough :
    (fuel more : ℕ) (candidates : List Addr) (available : ℤ) (r : Consumer)
    → length candidates ≤ fuel
    → fuel ≤ more
    → spread more candidates available r ≡ spread fuel candidates available r
unfolding spread
spread-enough zero zero candidates available r h k = refl
spread-enough (suc fuel) zero candidates available r h k = absurd (omega (arith, k))
spread-enough zero (suc more) candidates available r h k =
    let none : ltb 0 (length candidates) ≡ false = ground (arith, h) in rw none refl
spread-enough (suc fuel) (suc more) candidates available r h k =
    elim (Bool-cases (ltb 0 (length candidates) && ltb_ℤ (pos 0) available)) [
      | inl round ↦
          let i = drawn r % length candidates in
          let some_left : 0 < length candidates = ground (arith, round) in
          let one_less = length-without i candidates (mod-lt (drawn r) some_left) in
          rw round (
            spread-enough fuel more (take i candidates ++ drop (i + 1) candidates)
              (available -ℤ pos 1) (give_one (get_elem? candidates i) (draw_next r))
              (omega (arith, one_less)) (omega (arith, k)))
      | inr finished ↦ rw finished refl
    ]
