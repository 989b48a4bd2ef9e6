-- ===== src/Time.antt =====
-- Instants of package time: nanoseconds since Go's zero time, the first of January of year 1.
-- Durations are int64 nanoseconds.
use gitrdone.Common.{ℕ, ◌+◌, ◌-◌, ◌%◌, ◌*◌, ◌^◌, Bool}
use gitrdone.Common.Int.{ℤ, pos, negsuc, ltb_ℤ, eqb_ℤ, wrap64}

abbrev pub Time : Type 0
Time = ℤ

-- `time.Time{}`
abbrev pub zero_time : Time
zero_time = pos 0

-- `t.IsZero()`
unfoldable pub is_zero : Time → Bool
is_zero t = eqb_ℤ t zero_time

-- `a.Before(b)`
unfoldable pub before : Time → Time → Bool
before a b = ltb_ℤ a b

abbrev pub second : ℕ
second = 10 ^ 9

-- `time.Duration(n) * time.Second`, in int64 arithmetic
unfoldable pub seconds : ℤ → ℤ
seconds (pos n) = wrap64 (n * second)
seconds (negsuc n) = wrap64 (2 ^ 64 - (n + 1) * second % 2 ^ 64)
