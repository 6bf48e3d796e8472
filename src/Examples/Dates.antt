-- ===== src/Examples/Dates.antt =====
-- Dates and times that clients write, on the 20th of December 2026, a Sunday.
use schedule_appointments.Base.{◌≡◌, ◌+◌, ◌≤◌, refl, arith, true, false, some, none}
use schedule_appointments.Base.Calendar.{Date, IsDay, ordinal, weekday, plus_days}
use schedule_appointments.Errors.{ok}
use schedule_appointments.DateParser.{Found, parse_date}
use schedule_appointments.DateParser.Dates.{named_weekday, el_of_month, el_in_december, is_past}
use schedule_appointments.TimeParser.{Heard, parse_time}
use schedule_appointments.TimeParser.Hours.{IsTime, parse_time-IsTime}

abbrev sunday : Date
sunday = record { year = 2026; month = 12; day = 20 }

sunday-IsDay : IsDay sunday
sunday-IsDay = record {
  year = omega arith;
  month = omega arith;
  month_le = omega arith;
  day = omega arith;
  day_le = omega arith;
}

abbrev nothing : Found
nothing = record {
  iso = none;
  dmy = none;
  day_after_tomorrow = false;
  tomorrow = false;
  today = false;
  force_next = false;
  day_name = none;
  el = none;
  bare = none;
}

-- "martes"
next_tuesday :
    parse_date (record nothing { day_name = some 1 }) sunday
    ≡ ok (some (record { year = 2026; month = 12; day = 22 }))
unfolding parse_date plus_days
next_tuesday = refl

named_weekday_example :
    (d : Date) × (parse_date (record nothing { day_name = some 1 }) sunday ≡ ok (some d))
    × (weekday d ≡ 1)
    × (ordinal sunday + 1 ≤ ordinal d)
    × (ordinal d ≤ ordinal sunday + 14)
named_weekday_example =
    named_weekday (record nothing { day_name = some 1 }) sunday 1 sunday-IsDay (refl, refl)
      (refl, refl, refl) refl (omega arith)

-- "el 5 de enero"
el_of_month_example : is_past (record { year = 2027; month = 1; day = 5 }) sunday ≡ false
unfolding parse_date
el_of_month_example =
    el_of_month (record nothing { el = some (record { day = 5; month = some 1 }) }) sunday
      (record { year = 2027; month = 1; day = 5 }) 5 1 (refl, refl) (refl, refl, refl) refl refl
      refl

-- "el 5"
el_in_december_example :
    (parse_date (record nothing { el = some (record { day = 5; month = none }) }) sunday
      ≡ ok (some (record { year = 2026; month = 1; day = 5 })))
    × (is_past (record { year = 2026; month = 1; day = 5 }) sunday ≡ true)
el_in_december_example =
    el_in_december (record nothing { el = some (record { day = 5; month = none }) }) sunday 5
      sunday-IsDay (omega arith) (refl, refl) (refl, refl, refl) refl refl refl (omega arith)
      (omega arith)

abbrev silence : Heard
silence = record {
  clock = none;
  has_pm = false;
  has_am = false;
  hour_half = none;
  at = none;
  afternoon = false;
  morning = false;
  bare = none;
}

-- "llamame a las 12:30" has the letters "am".
letters_of_call :
    parse_time (record silence { clock = some (record { hour = 12; minute = 30 }); has_am = true })
    ≡ some (record { hour = 0; minute = 30 })
unfolding parse_time
letters_of_call = refl

parse_time-IsTime_example : IsTime (parse_time (record silence { bare = some 15 }))
parse_time-IsTime_example = parse_time-IsTime (record silence { bare = some 15 })

-- "a las 6 de la mañana"
early_morning :
    parse_time (record silence { at = some (6, none); morning = true })
    ≡ some (record { hour = 18; minute = 0 })
unfolding parse_time
early_morning = refl
