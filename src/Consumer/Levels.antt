-- ===== src/Consumer/Levels.antt =====
-- consumer.go: the backoff counter and the timers of startStopContinueBackoff and resume.
use go_nsq.Base.{
  ℕ, zero, suc, ◌+◌, ◌-◌, ◌^◌, ◌≤◌, ◌<◌, ◌≡◌, refl, ap, ◌∙◌, ◌⊎◌, inl, inr, Bool, false, ◌&&◌, List,
  [], ◌∷◌, arith, Bool-cases, if◌then◌else◌,
}
use go_nsq.Base.Int.{ℤ, pos, pos_part, neg_part, ◌+ℤ◌, ◌-ℤ◌, ltb_ℤ, leb_ℤ, eqb_ℤ}
use go_nsq.Base.Words.{wrap64, wrap32}
use go_nsq.Consumer.{
  Consumer, Config, Signal, backoff_flag, continue_flag, resume_flag, in_backoff_timeout,
  per_conn_max_in_flight,
}
use go_nsq.Consumer.Conns.{Conn, addrs}
use go_nsq.Consumer.Rdy.{update_all}
use go_nsq.Consumer.Account.{Inv, Inv-transfer, Kept, cap, total}
use go_nsq.Consumer.Loops.{Stable, Stable-refl, update_all-Stable, per_conn_count}
use native.Mathlib.Decide.{dec_lt}
use go_nsq.Consumer.Backoff.{
  backoff, next_counter, backoff_time, apply_counter, start_stop_continue_backoff,
}

-- A consumer that waits has a timer that will end the wait.
abbrev pub Armed : Consumer → Type 0
Armed r = (in_backoff_timeout r ≡ false) ⊎ (0 < r.resume_timers)

-- The counter lies between 0 and the level `top`.
abbrev pub IsLevel : ℕ → Consumer → Type 0
IsLevel top r = (neg_part r.backoff_counter ≡ 0) × (pos_part r.backoff_counter ≤ top)

-- The level above `top` would back off for longer than allowed.
abbrev pub IsTop : ℕ → Config → Type 0
IsTop top config =
    (top + 1 < 2 ^ 31)
    × (leb_ℤ (config.calculate (pos (top + 1))) config.max_backoff_duration ≡ false)

up :
    (n : ℕ)
    → n + 1 < 2 ^ 31
    → (wrap32 (pos n +ℤ pos 1) ≡ pos (n + 1)) × (wrap64 (pos n +ℤ pos 1) ≡ pos (n + 1))
unfolding wrap32 wrap64 ◌+ℤ◌
up n h = ground arith

down : (n : ℕ) → n + 1 < 2 ^ 31 → wrap32 (pos (suc n) -ℤ pos 1) ≡ pos n
unfolding wrap32 ◌-ℤ◌
down n h = ground arith

-- The next level, as a number.
abbrev pub next_level : Config → Signal → ℕ → ℕ
next_level config resume_flag n = n - 1
next_level config backoff_flag n =
    if leb_ℤ (config.calculate (pos (n + 1))) config.max_backoff_duration then n + 1 else n
next_level config continue_flag n = n

next_counter_lem :
    (config : Config) (top n : ℕ) (signal : Signal)
    → IsTop top config
    → n ≤ top
    → (next_counter config signal (pos n)).0 ≡ pos (next_level config signal n)
unfolding next_counter
next_counter_lem config top zero resume_flag t h = refl
next_counter_lem config top (suc n) resume_flag t h = ground (arith, down n (omega arith))
next_counter_lem config top n backoff_flag t h =
    rw ((up n (omega arith)).0, (up n (omega arith)).1) (ground arith)
next_counter_lem config top n continue_flag t h = refl

next_level-le :
    (config : Config) (top n : ℕ) (signal : Signal)
    → IsTop top config
    → n ≤ top
    → next_level config signal n ≤ top
next_level-le config top n resume_flag t h = omega arith
next_level-le config top n continue_flag t h = h
next_level-le config top n backoff_flag t h = elim (dec_lt n top) [
  | yes below ↦ ground arith
  | no at_top ↦ let e : n ≡ top = omega arith in rw (e, t.1) (omega arith)
]

-- The end of the handler, whatever the counter is.
abbrev pub Signalled : Consumer → Consumer → Type 0
Signalled r r' =
    Inv r'
    × Armed r'
    × (cap r' ≡ cap r)
    × (r'.backoff_counter ≡ r.backoff_counter)
    × ((total r' ≤ total r) ⊎ (total r' ≤ cap r))
    × (r'.config ≡ r.config)

pub Armed-Kept : (r s : Consumer) → Kept r s → Armed r → Armed s
unfolding in_backoff_timeout
Armed-Kept r s k (inl out) = inl (rw k.duration_kept out)
Armed-Kept r s k (inr armed) = inr (rw k.timers_kept armed)

Stable-Signalled : {r s : Consumer} → Armed r → Stable r s → Signalled r s
Stable-Signalled {r} {s} a b = (
  b.inv,
  Armed-Kept r s b.kept a,
  ap pos_part b.kept.cap_kept,
  b.kept.counter_kept,
  b.capped,
  b.kept.config_kept,
)

backoff-Signalled : {r s : Consumer} (d : ℤ) → Stable r s → Signalled r (backoff d s)
unfolding backoff
backoff-Signalled {r} {s} d b = (
  Inv-transfer _ b.inv refl refl refl,
  inr (omega arith),
  ap pos_part b.kept.cap_kept,
  b.kept.counter_kept,
  b.capped,
  b.kept.config_kept,
)

-- All connections get the share of each; with no connection there is nothing to send.
shares-Stable :
    (conns : List Conn) (r : Consumer)
    → r.connections ≡ conns
    → Inv r
    → Stable r (update_all (addrs conns) (per_conn_max_in_flight r) r)
shares-Stable [] r e v = unfold update_all in Stable-refl r v
shares-Stable (c ∷ cs) r e v =
    let (k, count, _) = per_conn_count r v (rw e (omega arith)) in
    rw count (update_all-Stable (addrs (c ∷ cs)) k r v)

apply_counter-Signalled :
    (updated : Bool) (r : Consumer) → Inv r → Armed r → Signalled r (apply_counter updated r)
unfolding apply_counter
apply_counter-Signalled updated r v a =
    elim (Bool-cases (eqb_ℤ r.backoff_counter (pos 0) && updated)) [
      | inl out ↦ rw out (Stable-Signalled a (shares-Stable r.connections r refl v))
      | inr not_out ↦ elim (Bool-cases (ltb_ℤ (pos 0) r.backoff_counter)) [
        | inl on ↦
            rw (not_out, on)
              (backoff-Signalled (backoff_time r) (update_all-Stable (addrs r.connections) 0 r v))
        | inr off ↦ rw (not_out, off) (Stable-Signalled a (Stable-refl r v))
      ]
    ]

-- Take a consumer whose account holds, whose wait, if any, has a timer, and whose counter is at
-- most `top`, where the strategy gives more than the longest backoff for the level above `top`.
-- Any signal keeps all that and max-in-flight, moves the counter by its rule unless the consumer
-- waits already, when nothing at all changes, and raises the total at most to max-in-flight.
pub start_stop_continue_backoff_lem :
    (top n : ℕ) (signal : Signal) (r : Consumer)
    → IsTop top r.config
    → r.backoff_counter ≡ pos n
    → n ≤ top
    → Inv r
    → Armed r
    → let r' = start_stop_continue_backoff signal r in
      Inv r'
      × Armed r'
      × (cap r' ≡ cap r)
      × (r'.backoff_counter
          ≡ (if in_backoff_timeout r then pos n else pos (next_level r.config signal n)))
      × ((in_backoff_timeout r ≡ false) ⊎ (r' ≡ r))
      × (next_level r.config signal n ≤ top)
      × ((total r' ≤ total r) ⊎ (total r' ≤ cap r))
unfolding start_stop_continue_backoff
start_stop_continue_backoff_lem top n signal r t e h v a =
    let counter = next_counter r.config signal r.backoff_counter in
    let level : counter.0 ≡ pos (next_level r.config signal n) =
      ap (λ z. (next_counter r.config signal z).0) e ∙ next_counter_lem r.config top n signal t h in
    let below = next_level-le r.config top n signal t h in
    let (inv, armed, top_kept, kept, capped, _) =
      apply_counter-Signalled counter.1 (record r { backoff_counter = counter.0 })
        (Inv-transfer _ v refl refl refl) (unfold in_backoff_timeout in a) in
    elim (Bool-cases (in_backoff_timeout r)) [
      | inl waits ↦ rw waits (v, a, refl, e, inr refl, below, inl (omega arith))
      | inr ready ↦ rw ready (inv, armed, top_kept, kept ∙ level, inl refl, below, capped)
    ]

-- The configuration is only read.
pub start_stop_continue_backoff-config :
    (signal : Signal) (r : Consumer)
    → Inv r
    → Armed r
    → (start_stop_continue_backoff signal r).config ≡ r.config
unfolding start_stop_continue_backoff
start_stop_continue_backoff-config signal r v a =
    let counter = next_counter r.config signal r.backoff_counter in
    let (_, _, _, _, _, kept) =
      apply_counter-Signalled counter.1 (record r { backoff_counter = counter.0 })
        (Inv-transfer _ v refl refl refl) (unfold in_backoff_timeout in a) in
    elim (Bool-cases (in_backoff_timeout r)) [
      | inl waits ↦ rw waits refl
      | inr ready ↦ rw ready kept
    ]
