-- ===== src/DateParser.antt =====
-- src/infrastructure/ai/date_parser.py: parse_date, from what its regular expressions find on.
-- What the module `re` finds in the text is an argument; Python's dates past the year 9999 are not
-- excluded where days are added.
pub mod Dates
use schedule_appointments.Base.{
  ℕ, suc, ◌+◌, ◌-◌, ◌%◌, Bool, ◌&&◌, ◌||◌, Option, none, some, leb, ltb, ◌==◌, if◌then◌else◌,
}
use schedule_appointments.Base.Calendar.{Date, make_date, plus_days, weekday}
use schedule_appointments.Errors.{Result, ok, err, value_error}

-- A day with the number of its month, where the word after "de" is a month's name.
pub record DayOf : Type 0 where
  pub day : ℕ
  pub month : Option ℕ

-- What each expression finds, in the order of the code: an ISO date, a date DD/MM/YYYY, the three
-- relative keywords, "próximo" and its like, the first weekday's name in the order of the table, a
-- day after "el", and a day with a month's name.
pub record Found : Type 0 where
  pub iso : Option Date
  pub dmy : Option Date
  pub day_after_tomorrow : Bool
  pub tomorrow : Bool
  pub today : Bool
  pub force_next : Bool
  pub day_name : Option ℕ
  pub el : Option DayOf
  pub bare : Option DayOf

-- `date(…)`, whose ValueError is not caught.
abbrev pub exact : Date → Result (Option Date)
exact d = elim (make_date d.year d.month d.day) [ none ↦ err value_error | some e ↦ ok (some e) ]

-- `(day_num - today.weekday()) % 7`, and a week more for today or for "próximo".
abbrev pub days_ahead : Bool → ℕ → Date → ℕ
days_ahead force_next n today =
    let delta = (n + 7 - weekday today) % 7 in if delta == 0 || force_next then delta + 7 else delta

-- `(month_n, day_n) >= (today.month, today.day)`
abbrev pub is_still_to_come : ℕ → ℕ → Date → Bool
is_still_to_come m d today = ltb today.month m || (m == today.month && leb today.day d)

abbrev pub in_month : ℕ → ℕ → Date → Option Date
in_month d m today =
    make_date (if is_still_to_come m d today then today.year else suc today.year) m d

-- A day without a month: of this month, or of the next where it has passed.
abbrev pub next_month : ℕ → ℕ
next_month m = if ltb 12 (suc m) then 1 else suc m

abbrev pub of_some_month : ℕ → Date → Option Date
of_some_month d today =
    make_date today.year (if ltb d today.day then next_month today.month else today.month) d

abbrev pub after_el : Option ℕ → ℕ → Date → Option Date
after_el (some m) d today = in_month d m today
after_el none d today = of_some_month d today

abbrev pub from_el : DayOf → Date → Option Date
from_el f today = after_el f.month f.day today

abbrev pub of_month : Option ℕ → ℕ → Date → Option Date
of_month (some m) d today = in_month d m today
of_month none d today = none

abbrev pub from_bare : Option DayOf → Date → Option Date
from_bare none today = none
from_bare (some f) today = of_month f.month f.day today

-- A date that does not exist falls through to the next expression.
abbrev pub or_bare : Option Date → Option DayOf → Date → Option Date
or_bare (some d) bare today = some d
or_bare none bare today = from_bare bare today

abbrev pub from_day : Option DayOf → Option DayOf → Date → Option Date
from_day none bare today = from_bare bare today
from_day (some e) bare today = or_bare (from_el e today) bare today

abbrev pub from_numbers : Found → Date → Option Date
from_numbers f today = from_day f.el f.bare today

abbrev pub from_name : Option ℕ → Found → Date → Option Date
from_name none f today = from_numbers f today
from_name (some n) f today = some (plus_days (days_ahead f.force_next n today) today)

abbrev pub from_words : Found → Date → Option Date
from_words f today =
    if f.day_after_tomorrow
    then some (plus_days 2 today)
    else if f.tomorrow
    then some (plus_days 1 today)
    else if f.today
    then some today
    else from_name f.day_name f today

abbrev pub parsed : Option Date → Option Date → Option Date → Result (Option Date)
parsed (some d) dmy words = exact d
parsed none (some d) words = exact d
parsed none none words = ok words

unfoldable pub parse_date : Found → Date → Result (Option Date)
parse_date f today = parsed f.iso f.dmy (from_words f today)
