-- ===== src/Base/Times.antt =====
-- Times: a `datetime` in UTC is its number of microseconds since the year 1, and a `timedelta` of at
-- least 0 is a number of microseconds.
use Prim.Native.Nat.{ℕ, ◌+◌}
use mind_runtime.Base.Raising.{Result, ok, raise, overflow_error}
use mind_runtime.Base.Tests.{leb, if◌then◌else◌}

-- `datetime.max`, the last microsecond of the year 9999.
abbrev pub max_time : ℕ
max_time = 315537897599999999

-- `time + delta`
abbrev pub add_time : ℕ → ℕ → Result ℕ
add_time time delta =
    if leb (time + delta) max_time then ok (time + delta) else raise overflow_error
