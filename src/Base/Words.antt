-- ===== src/Base/Words.antt =====
-- Go's int32 and int64: the bit patterns that encoding/binary handles, and the integers they are.
use go_nsq.Base.{ℕ, ◌+◌, ◌-◌, ◌%◌, ◌^◌, ◌≤◌, ◌<◌, ◌≡◌, arith, ltb, if◌then◌else◌}
use go_nsq.Base.Int.{ℤ, pos, negsuc, ◌+ℤ◌, ◌-ℤ◌, sub_ℕ}

-- `uint64(z)` and `int64(w)`, which keep the bit pattern.
unfoldable pub to_u64 : ℤ → ℕ
to_u64 (pos n) = n % 2 ^ 64
to_u64 (negsuc n) = 2 ^ 64 - 1 - n % 2 ^ 64

unfoldable pub int64 : ℕ → ℤ
int64 w = if ltb w (2 ^ 63) then pos w else negsuc (2 ^ 64 - 1 - w)

unfoldable pub to_u32 : ℤ → ℕ
to_u32 (pos n) = n % 2 ^ 32
to_u32 (negsuc n) = 2 ^ 32 - 1 - n % 2 ^ 32

unfoldable pub int32 : ℕ → ℤ
int32 w = if ltb w (2 ^ 31) then pos w else negsuc (2 ^ 32 - 1 - w)

abbrev pub IsI64 : ℤ → Type 0
IsI64 (pos n) = n < 2 ^ 63
IsI64 (negsuc n) = n < 2 ^ 63

abbrev pub IsI32 : ℤ → Type 0
IsI32 (pos n) = n < 2 ^ 31
IsI32 (negsuc n) = n < 2 ^ 31

-- The result of an int64 or int32 operation whose exact value is `z`.
unfoldable pub wrap64 : ℤ → ℤ
unfolding int64 to_u64
wrap64 z = int64 (to_u64 z)

unfoldable pub wrap32 : ℤ → ℤ
unfolding int32 to_u32
wrap32 z = int32 (to_u32 z)

pub int64-to_u64 : (z : ℤ) → IsI64 z → int64 (to_u64 z) ≡ z
unfolding int64 to_u64
int64-to_u64 (pos n) h = ground arith
int64-to_u64 (negsuc n) h = ground arith

pub int32-to_u32 : (z : ℤ) → IsI32 z → int32 (to_u32 z) ≡ z
unfolding int32 to_u32
int32-to_u32 (pos n) h = ground arith
int32-to_u32 (negsuc n) h = ground arith

pub to_u64-int64 : (w : ℕ) → w < 2 ^ 64 → to_u64 (int64 w) ≡ w
unfolding int64 to_u64
to_u64-int64 w h = ground arith

pub to_u32-int32 : (w : ℕ) → w < 2 ^ 32 → to_u32 (int32 w) ≡ w
unfolding int32 to_u32
to_u32-int32 w h = ground arith

pub to_u64-lt : (z : ℤ) → to_u64 z < 2 ^ 64
unfolding to_u64
to_u64-lt (pos n) = omega arith
to_u64-lt (negsuc n) = omega arith

pub to_u32-lt : (z : ℤ) → to_u32 z < 2 ^ 32
unfolding to_u32
to_u32-lt (pos n) = omega arith
to_u32-lt (negsuc n) = omega arith

pub int32-IsI32 : (w : ℕ) → w < 2 ^ 32 → IsI32 (int32 w)
unfolding int32
int32-IsI32 w h = ground arith

pub int64-IsI64 : (w : ℕ) → w < 2 ^ 64 → IsI64 (int64 w)
unfolding int64
int64-IsI64 w h = ground arith

-- In range nothing wraps.
pub wrap64_id : (z : ℤ) → IsI64 z → wrap64 z ≡ z
unfolding wrap64
wrap64_id z h = int64-to_u64 z h

pub wrap32_id : (z : ℤ) → IsI32 z → wrap32 z ≡ z
unfolding wrap32
wrap32_id z h = int32-to_u32 z h

-- Adding to a sum the change of one of its parts, where the numbers are small.
pub wrap64_exchange :
    (total new old : ℕ)
    → old ≤ total
    → total < 2 ^ 62
    → new < 2 ^ 62
    → wrap64 (pos total +ℤ wrap64 (pos new -ℤ pos old)) ≡ pos (total - old + new)
unfolding wrap64 ◌+ℤ◌ ◌-ℤ◌
wrap64_exchange total new old h t n = ground arith

-- Room left under a cap, where the numbers are small.
pub wrap64_room :
    (top total old : ℕ)
    → top < 2 ^ 31
    → total < 2 ^ 31
    → old < 2 ^ 31
    → wrap64 (wrap64 (pos top -ℤ pos total) +ℤ pos old) ≡ sub_ℕ (top + old) total
unfolding wrap64 ◌+ℤ◌ ◌-ℤ◌
wrap64_room top total old h k l = ground arith
