-- ===== src/Consumer/Jitter.antt =====
-- config.go: FullJitterStrategy.
use go_nsq.Base.{
  ℕ, ◌*◌, ◌^◌, ◌<◌, ◌≡◌, refl, true, false, Option, none, some, arith, if◌then◌else◌, ◌==◌,
}
use go_nsq.Base.Int.{ℤ, pos, negsuc}
use go_nsq.Consumer.Strategy.{exponential, exponential_small}

-- rand.Intn panics on a number that is not positive: none. `intn` is what it draws.
unfoldable pub intn_or_panic : (ℕ → ℕ) → ℤ → Option ℤ
intn_or_panic intn (pos n) = if n == 0 then none else some (pos (intn n))
intn_or_panic intn (negsuc n) = none

-- (*FullJitterStrategy).Calculate
unfoldable pub full_jitter : (ℕ → ℕ) → ℤ → ℤ → ℤ → Option ℤ
unfolding intn_or_panic
full_jitter intn overflow multiplier attempt =
    intn_or_panic intn (exponential overflow multiplier attempt)

-- If rand.Intn draws below its argument, a positive multiplier and an attempt for which the
-- exponential fits an int64 give a duration from 0 to below the exponential, without a panic.
pub full_jitter-below :
    (intn : ℕ → ℕ) (overflow : ℤ) (m n : ℕ)
    → ((k : ℕ) → 0 < k → intn k < k)
    → 0 < m * 2 ^ n
    → n < 63
    → m * 2 ^ n < 2 ^ 63
    → (d : ℕ) × (full_jitter intn overflow (pos m) (pos n) ≡ some (pos d)) × (d < m * 2 ^ n)
unfolding full_jitter
full_jitter-below intn overflow m n draws positive small fits =
    let some_time : (m * 2 ^ n == 0) ≡ false = ground (arith, positive) in
    (
      intn (m * 2 ^ n),
      rw (exponential_small overflow m n small fits, intn_or_panic, some_time) refl,
      draws (m * 2 ^ n) positive,
    )

-- A multiplier of 0 panics.
pub full_jitter_panics :
    (intn : ℕ → ℕ) (overflow : ℤ) (n : ℕ)
    → n < 63
    → full_jitter intn overflow (pos 0) (pos n) ≡ none
unfolding full_jitter intn_or_panic
full_jitter_panics intn overflow n small =
    let zero_time : (0 * 2 ^ n == 0) ≡ true = ground arith in
    rw (exponential_small overflow 0 n small (omega arith), intn_or_panic, zero_time) refl
