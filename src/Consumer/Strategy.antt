-- ===== src/Consumer/Strategy.antt =====
-- config.go: ExponentialStrategy, the default, has a highest backoff level.
use go_nsq.Base.{ℕ, ◌+◌, ◌*◌, ◌^◌, ◌<◌, ◌≡◌, true, arith, ltb, if◌then◌else◌}
use go_nsq.Base.Int.{ℤ, pos, negsuc, sub_ℕ}
use go_nsq.Base.Words.{wrap64, wrap64_id}

infix 60 ◌*ℤ◌
abbrev pub ◌*ℤ◌ : ℤ → ℤ → ℤ
pos a *ℤ pos b = pos (a * b)
pos a *ℤ negsuc b = sub_ℕ 0 (a * (b + 1))
negsuc a *ℤ pos b = sub_ℕ 0 ((a + 1) * b)
negsuc a *ℤ negsuc b = pos ((a + 1) * (b + 1))

-- The conversion to int64 of 2 to the power `attempt`, which a float64 holds exactly; `overflow` is
-- what the machine makes of a number that is too large. A fraction is cut to 0.
unfoldable pub power : ℤ → ℤ → ℤ
power overflow (pos n) = if ltb n 63 then pos (2 ^ n) else overflow
power overflow (negsuc n) = pos 0

-- (*ExponentialStrategy).Calculate
unfoldable pub exponential : ℤ → ℤ → ℤ → ℤ
unfolding power
exponential overflow multiplier attempt = wrap64 (multiplier *ℤ power overflow attempt)

pub exponential_small :
    (overflow : ℤ) (m n : ℕ)
    → n < 63
    → m * 2 ^ n < 2 ^ 63
    → exponential overflow (pos m) (pos n) ≡ pos (m * 2 ^ n)
unfolding exponential power
exponential_small overflow m n h fits =
    let small : ltb n 63 ≡ true = ground (arith, h) in rw small (wrap64_id (pos (m * 2 ^ n)) fits)
