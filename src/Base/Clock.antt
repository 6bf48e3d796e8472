-- ===== src/Base/Clock.antt =====
-- Instants and spans: a moment is a number of microseconds since the first instant of datetime.
-- Moments past the last year of datetime are not excluded.
use Prim.Native.Nat.{ℕ, ◌+◌, ◌-◌, ◌*◌, ◌/◌, ◌≤◌, ◌<◌}
use native.Mathlib.Omega.{arith}
use schedule_appointments.Base.Tests.{leb, if◌then◌else◌}
use schedule_appointments.Base.Int.{ℤ, pos, negated}

-- An argument of type datetime, with or without a time zone.
pub data DateTime : Type 0 where
  aware : ℕ → DateTime
  naive : ℕ → DateTime

abbrev pub day : ℕ
day = 86_400_000_000

-- `timedelta(days=n)`
abbrev pub days : ℕ → ℕ
days n = n * 86_400_000_000

-- `math.ceil(span.total_seconds() / 86400)` for a span of zero or more. The quotient of floats that
-- the code takes has the same ceiling for spans below 32,768 days.
unfoldable pub ceil_days : ℕ → ℕ
ceil_days span = (span + 86_399_999_999) / 86_400_000_000

-- `math.ceil((end - start).total_seconds() / 86400)`, which is negative where the end lies a day or
-- more before the start.
unfoldable pub days_from : (start end : ℕ) → ℤ
days_from start end =
    if leb start end
    then pos (ceil_days (end - start))
    else negated ((start - end) / 86_400_000_000)

pub days-ceil_days : (span : ℕ) → span ≤ days (ceil_days span)
unfolding ceil_days
days-ceil_days span = omega arith

pub days-ceil_days-lt : (span : ℕ) → days (ceil_days span) < span + day
unfolding ceil_days
days-ceil_days-lt span = omega arith
