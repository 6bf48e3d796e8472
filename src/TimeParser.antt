-- ===== src/TimeParser.antt =====
-- src/infrastructure/ai/date_parser.py: parse_time, from what its regular expressions find on. What
-- the module `re` finds in the text is an argument.
pub mod Hours
use schedule_appointments.Base.{
  ℕ, ◌+◌, ◌-◌, Bool, true, false, ◌&&◌, Option, none, some, leb, ltb, ◌==◌, or_else, if◌then◌else◌,
}

-- `time(hour, minute)`
pub record Time : Type 0 where
  pub hour : ℕ
  pub minute : ℕ

-- What is found: a time HH:MM, whether the text has the letters "pm" and "am" anywhere, an hour with
-- am or pm (`true`), an hour after "las" with its minutes, the words for afternoon or night and for
-- morning, and an hour before "horas".
pub record Heard : Type 0 where
  pub clock : Option Time
  pub has_pm : Bool
  pub has_am : Bool
  pub hour_half : Option (ℕ × Bool)
  pub at : Option (ℕ × Option ℕ)
  pub afternoon : Bool
  pub morning : Bool
  pub bare : Option ℕ

-- `if 0 <= h <= 23 and 0 <= mi <= 59: return time(h, mi)`
abbrev pub time_or : ℕ → ℕ → Option Time → Option Time
time_or h m next = if leb h 23 && leb m 59 then some (record { hour = h; minute = m }) else next

abbrev pub to_half : (pm am : Bool) → ℕ → ℕ
to_half pm am h =
    let later = if pm && ltb h 12 then h + 12 else h in if am && later == 12 then 0 else later

-- The hour after "las": the words of the text, or else a guess.
abbrev pub guessed : (afternoon morning : Bool) → ℕ → ℕ
guessed afternoon morning h =
    if afternoon && ltb h 12
    then h + 12
    else if morning && ltb 12 h
    then h - 12
    else if ltb h 7
    then h + 12
    else h

abbrev pub from_clock : Option Time → (pm am : Bool) → Option Time → Option Time
from_clock none pm am next = next
from_clock (some t) pm am next = time_or (to_half pm am t.hour) t.minute next

abbrev pub from_half : Option (ℕ × Bool) → Option Time → Option Time
from_half none next = next
from_half (some (h, true)) next = time_or (to_half true false h) 0 next
from_half (some (h, false)) next = time_or (to_half false true h) 0 next

abbrev pub from_at : Option (ℕ × Option ℕ) → (afternoon morning : Bool) → Option Time → Option Time
from_at none afternoon morning next = next
from_at (some (h, m)) afternoon morning next =
    time_or (guessed afternoon morning h) (or_else m 0) next

abbrev pub from_bare_hour : Option ℕ → Option Time
from_bare_hour none = none
from_bare_hour (some h) = time_or h 0 none

unfoldable pub parse_time : Heard → Option Time
parse_time w =
    from_clock w.clock w.has_pm w.has_am
      (from_half w.hour_half (from_at w.at w.afternoon w.morning (from_bare_hour w.bare)))
