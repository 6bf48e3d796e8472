-- ===== src/TimeParser/Hours.antt =====
-- Which times parse_time gives.
use schedule_appointments.Base.{
  ℕ, ◌<◌, inl, inr, Bool, true, false, ◌&&◌, Option, none, some, arith, leb, or_else, Bool-cases,
}
use schedule_appointments.TimeParser.{
  Time, Heard, parse_time, time_or, from_clock, from_half, from_at, from_bare_hour, to_half,
  guessed,
}

-- A time of the day, where there is one.
abbrev pub IsTime : Option Time → Type 0
IsTime none = Unit
IsTime (some t) = (t.hour < 24) × (t.minute < 60)

time_or-IsTime : (h m : ℕ) (next : Option Time) → IsTime next → IsTime (time_or h m next)
time_or-IsTime h m next k = elim (Bool-cases (leb h 23 && leb m 59)) [
  | inl e ↦ rw e (ground arith, ground arith)
  | inr e ↦ rw e k
]

from_bare_hour-IsTime : (b : Option ℕ) → IsTime (from_bare_hour b)
from_bare_hour-IsTime none = tt
from_bare_hour-IsTime (some h) = time_or-IsTime h 0 none tt

from_at-IsTime :
    (o : Option (ℕ × Option ℕ)) (a m : Bool) (next : Option Time)
    → IsTime next
    → IsTime (from_at o a m next)
from_at-IsTime none a m next k = k
from_at-IsTime (some (h, n)) a m next k = time_or-IsTime (guessed a m h) (or_else n 0) next k

from_half-IsTime :
    (o : Option (ℕ × Bool)) (next : Option Time) → IsTime next → IsTime (from_half o next)
from_half-IsTime none next k = k
from_half-IsTime (some (h, true)) next k = time_or-IsTime (to_half true false h) 0 next k
from_half-IsTime (some (h, false)) next k = time_or-IsTime (to_half false true h) 0 next k

from_clock-IsTime :
    (o : Option Time) (p a : Bool) (next : Option Time)
    → IsTime next
    → IsTime (from_clock o p a next)
from_clock-IsTime none p a next k = k
from_clock-IsTime (some t) p a next k = time_or-IsTime (to_half p a t.hour) t.minute next k

-- Whatever is found in the text, the hour is below 24 and the minute below 60.
pub parse_time-IsTime : (w : Heard) → IsTime (parse_time w)
unfolding parse_time
parse_time-IsTime w = from_clock-IsTime w.clock w.has_pm w.has_am _ (
    from_half-IsTime w.hour_half _
      (from_at-IsTime w.at w.afternoon w.morning _ (from_bare_hour-IsTime w.bare)))
