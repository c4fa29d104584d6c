-- ===== src/Prelude/Time.antt =====
-- Go's time.Time and time.Duration, as far as the services use them. A time is the number of
-- nanoseconds since the zero time (January 1, year 1, UTC), so `t.IsZero()` is `t == 0`; locations
-- are left out: most services convert with `.UTC()`, and the analytics services are given times of one
-- location. A duration is an int64.
use Prim.Native.Nat.{ℕ, ◌+◌, ◌-◌, ◌*◌, ◌/◌, ◌%◌, ◌≤◌}
use mathlib.Core.Path.{◌≡◌}
use mathlib.Core.Bool.{Bool}
use native.Mathlib.Omega.{arith}
use microgrid_cloud.Prelude.Tests.{ltb, leb, eqb, if◌then◌else◌}
use microgrid_cloud.Prelude.Int.{ℤ, pos, negsuc, ltb_ℤ}

abbrev pub is_zero : ℕ → Bool
is_zero t = eqb t 0

abbrev pub max_int64 : ℕ
max_int64 = 9223372036854775807

-- The int64 with the given bit pattern.
abbrev pub to_int64 : ℕ → ℤ
to_int64 n =
    let r = n % 18446744073709551616 in
    if leb r max_int64 then pos r else negsuc (18446744073709551616 - r - 1)

-- `a.Sub(b)`, which saturates at the bounds of a duration.
abbrev pub time_sub : ℕ → ℕ → ℤ
time_sub a b =
    if leb b a
    then (if leb (a - b) max_int64 then pos (a - b) else pos max_int64)
    else (if leb (b - a) max_int64 then negsuc (b - a - 1) else negsuc max_int64)

-- `time.Duration(n) * time.Second`, which wraps.
abbrev pub seconds : ℕ → ℤ
seconds n = to_int64 (n * 1000000000)

-- The parts of a time in UTC, where a day has 86400 seconds.
abbrev pub one_minute : ℕ
one_minute = 60000000000

abbrev pub one_hour : ℕ
one_hour = 3600000000000

abbrev pub one_day : ℕ
one_day = 86400000000000

abbrev pub day_start : ℕ → ℕ
day_start t = t - t % 86400000000000

abbrev pub hour_of : ℕ → ℕ
hour_of t = t % 86400000000000 / 3600000000000

abbrev pub minute_of : ℕ → ℕ
minute_of t = t % 3600000000000 / 60000000000

-- Within the range of a duration the comparison of an elapsed time is the exact one.
pub time_sub-lt-seconds :
    (a b n : ℕ) → n ≤ 9223372036 → ltb_ℤ (time_sub a b) (seconds n) ≡ ltb a (b + n * 1000000000)
time_sub-lt-seconds a b n h = ground arith
