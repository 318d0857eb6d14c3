-- ===== src/Prelude/Int.antt =====
-- Go's `int64` values as integers, and the signed reading of a 64-bit pattern.
use Prim.Native.Nat.{ℕ, ◌-◌, ◌+◌, ◌*◌, ◌%◌, ◌^◌, ◌<◌, ◌≤◌, min}
use mathlib.Core.Path.{◌≡◌}
use mathlib.Core.Bool.{Bool, true, false}
use native.Mathlib.Omega.{arith}
use krakend_otel.Prelude.Tests.{if◌then◌else◌, leb}

-- `negsuc n` is -(n + 1)
pub data ℤ : Type 0 where
  pos : ℕ → ℤ
  negsuc : ℕ → ℤ

abbrev pub is_nonneg : ℤ → Bool
is_nonneg (pos n) = true
is_nonneg (negsuc n) = false

-- The largest `int64`, 2^63 - 1.
abbrev pub max_int64 : ℕ
max_int64 = 9223372036854775807

-- The `int64` that a 64-bit pattern stands for.
unfoldable pub to_int64 : ℕ → ℤ
to_int64 n = if leb n max_int64 then pos n else negsuc (18446744073709551615 - n)

pub to_int64_small : (n : ℕ) → n < 2 ^ 63 → to_int64 n ≡ pos n
unfolding to_int64
to_int64_small n h = ground arith

-- `x + y` on `int64`, as patterns.
unfoldable pub add64 : ℕ → ℕ → ℕ
add64 a b = (a + b) % 2 ^ 64

-- `t.Sub(u)` on `time.Time`, in nanoseconds: it saturates at the bounds of `time.Duration`.
unfoldable pub sub_time : ℕ → ℕ → ℤ
sub_time t u = if leb u t then pos (min (t - u) max_int64) else negsuc (min (u - t - 1) max_int64)

-- The clock against the zero time.
pub sub_time_zero : (t : ℕ) → 2 ^ 63 ≤ t → sub_time t 0 ≡ pos max_int64
unfolding sub_time
sub_time_zero t h = ground arith

-- The pattern of an `int`.
abbrev pub pattern64 : ℤ → ℕ
pattern64 (pos n) = n % 2 ^ 64
pattern64 (negsuc n) = 18446744073709551615 - n % 2 ^ 64

-- `time.Duration(n) * time.Second`, for the pattern of `n`.
unfoldable pub seconds64 : ℕ → ℤ
seconds64 n = to_int64 (n * 1000000000 % 2 ^ 64)
