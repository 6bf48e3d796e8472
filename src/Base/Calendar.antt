-- ===== src/Base/Calendar.antt =====
-- Calendar dates: Python's `datetime.date` as year, month and day, its ordinals (here from 0), and its
-- weekdays.
use Prim.Native.Nat.{ℕ, suc, zero, ◌+◌, ◌-◌, ◌*◌, ◌/◌, ◌%◌, ◌≤◌}
use mathlib.Core.Path.{◌≡◌, refl, ap, ◌∙◌}
use mathlib.Core.Bool.{Bool, false, ◌&&◌, ◌||◌, not}
use mathlib.Core.Option.{Option, none, some}
use native.Mathlib.Omega.{arith}
use mathlib.Core.Logic.{inl, inr}
use schedule_appointments.Base.Tests.{◌==◌, leb, ltb, Bool-cases, if◌then◌else◌}

pub record Date : Type 0 where
  pub year : ℕ
  pub month : ℕ
  pub day : ℕ

abbrev pub is_leap : ℕ → Bool
is_leap y = y % 4 == 0 && (not (y % 100 == 0) || y % 400 == 0)

abbrev pub days_in_month : ℕ → ℕ → ℕ
days_in_month y m =
    if m == 2
    then if is_leap y then 29 else 28
    else if m == 4 || m == 6 || m == 9 || m == 11
    then 30
    else 31

-- Whether `date(year, month, day)` makes a date and does not raise ValueError.
abbrev pub is_date : Date → Bool
is_date d =
    leb 1 d.year
    && leb d.year 9_999
    && leb 1 d.month
    && leb d.month 12
    && leb 1 d.day
    && leb d.day (days_in_month d.year d.month)

-- `date(year, month, day)`, where `none` stands for the ValueError.
abbrev pub make_date : (year month day : ℕ) → Option Date
make_date y m d =
    let made : Date = record { year = y; month = m; day = d } in
    if is_date made then some made else none

abbrev pub days_before_year : ℕ → ℕ
days_before_year y = let p = y - 1 in p * 365 + p / 4 + p / 400 - p / 100

abbrev pub days_before_month : ℕ → ℕ → ℕ
days_before_month y zero = 0
days_before_month y (suc zero) = 0
days_before_month y (suc (suc m)) = days_before_month y (suc m) + days_in_month y (suc m)

-- `d.toordinal() - 1`
abbrev pub ordinal : Date → ℕ
ordinal d = days_before_year d.year + days_before_month d.year d.month + (d.day - 1)

-- The day after: the first of the next month after the last of a month.
abbrev pub tomorrow : Date → Date
tomorrow d =
    if ltb d.day (days_in_month d.year d.month)
    then record d { day = suc d.day }
    else if ltb d.month 12
    then record d { month = suc d.month; day = 1 }
    else record { year = suc d.year; month = 1; day = 1 }

-- `d + timedelta(days=n)`
unfoldable pub plus_days : ℕ → Date → Date
plus_days zero d = d
plus_days (suc n) d = plus_days n (tomorrow d)

-- `d.weekday()`, 0 for Monday.
abbrev pub weekday : Date → ℕ
weekday d = ordinal d % 7

-- 1 where a number is a multiple.
abbrev pub multiple : ℕ → ℕ
multiple r = if r == 0 then 1 else 0

div_4 : (p : ℕ) → suc p / 4 ≡ p / 4 + multiple (suc p % 4)
div_4 p = ground arith

div_100 : (p : ℕ) → suc p / 100 ≡ p / 100 + multiple (suc p % 100)
div_100 p = ground arith

div_400 : (p : ℕ) → suc p / 400 ≡ p / 400 + multiple (suc p % 400)
div_400 p = ground arith

leap_count :
    (y : ℕ)
    → multiple (y % 4) + multiple (y % 400) ≡ multiple (y % 100) + (if is_leap y then 1 else 0)
leap_count y = ground arith

days_before_year-suc :
    (p : ℕ)
    → days_before_year (suc (suc p))
      ≡ days_before_year (suc p) + 365 + (if is_leap (suc p) then 1 else 0)
days_before_year-suc p = omega (arith, div_4 p, div_100 p, div_400 p, leap_count (suc p))

days_of_year : (y : ℕ) → days_before_month y 12 + 31 ≡ 365 + (if is_leap y then 1 else 0)
days_of_year y = ground arith

-- A day of the calendar, of any year from 1 on.
pub record IsDay (d : Date) : Type 0 where
  pub year : 1 ≤ d.year
  pub month : 1 ≤ d.month
  pub month_le : d.month ≤ 12
  pub day : 1 ≤ d.day
  pub day_le : d.day ≤ days_in_month d.year d.month

pub days_in_month_pos : (y m : ℕ) → 28 ≤ days_in_month y m
days_in_month_pos y m = ground arith

december : (y : ℕ) → days_in_month y 12 ≡ 31
december y = refl

days_before_month-suc :
    (y m : ℕ) → 1 ≤ m → days_before_month y (suc m) ≡ days_before_month y m + days_in_month y m
days_before_month-suc y zero h = omega arith
days_before_month-suc y (suc m) h = refl

-- The last of December is the day before the first of January.
new_year :
    (y : ℕ) → 1 ≤ y → days_before_year (suc y) ≡ days_before_year y + days_before_month y 12 + 31
new_year zero h = omega arith
new_year (suc p) h = omega (arith, days_before_year-suc p, days_of_year (suc p))

last_day :
    (y m n : ℕ)
    → 1 ≤ y
    → m ≡ 12
    → days_in_month y m ≤ n
    → n ≤ days_in_month y m
    → days_before_year (suc y) + 0 + (1 - 1)
      ≡ suc (days_before_year y + days_before_month y m + (n - 1))
last_day y m n h e low high =
    let length : days_in_month y m ≡ 31 = ap (days_in_month y) e ∙ december y in
    let before : days_before_month y m ≡ days_before_month y 12 = ap (days_before_month y) e in
    omega (arith, new_year y h, length, before)

pub ordinal-tomorrow : (d : Date) → IsDay d → ordinal (tomorrow d) ≡ suc (ordinal d)
ordinal-tomorrow d h = elim (Bool-cases (ltb d.day (days_in_month d.year d.month))) [
  | inl e ↦ rw e (omega (arith, h.day))
  | inr e ↦
      let last = ltb_false d.day (days_in_month d.year d.month) e in
      rw e (elim (Bool-cases (ltb d.month 12)) [
        | inl f ↦
            rw f
              (omega (arith, h.day_le, last, h.day, days_before_month-suc d.year d.month h.month))
        | inr f ↦
            rw f (
              last_day d.year d.month d.day h.year (december_of d.month f h.month_le) last h.day_le)
      ])
]
  where
    ltb_false : (a b : ℕ) → ltb a b ≡ false → b ≤ a
    ltb_false a b h = ground arith

    december_of : (m : ℕ) → ltb m 12 ≡ false → m ≤ 12 → m ≡ 12
    december_of m f g = ground arith

pub tomorrow-IsDay : (d : Date) → IsDay d → IsDay (tomorrow d)
tomorrow-IsDay d h = elim (Bool-cases (ltb d.day (days_in_month d.year d.month))) [
  | inl e ↦ rw e (record {
    year = h.year;
    month = h.month;
    month_le = h.month_le;
    day = omega arith;
    day_le = ground arith;
  })
  | inr e ↦ rw e (elim (Bool-cases (ltb d.month 12)) [
    | inl f ↦ rw f (record {
      year = h.year;
      month = omega arith;
      month_le = ground arith;
      day = omega arith;
      day_le = omega (arith, days_in_month_pos d.year (suc d.month));
    })
    | inr f ↦ rw f (record {
      year = omega arith;
      month = omega arith;
      month_le = omega arith;
      day = omega arith;
      day_le = omega arith;
    })
  ])
]

pub plus_days-IsDay : (n : ℕ) (d : Date) → IsDay d → IsDay (plus_days n d)
unfolding plus_days
plus_days-IsDay zero d h = h
plus_days-IsDay (suc n) d h = plus_days-IsDay n (tomorrow d) (tomorrow-IsDay d h)

-- Adding days to a date adds them to its ordinal.
pub ordinal-plus_days : (n : ℕ) (d : Date) → IsDay d → ordinal (plus_days n d) ≡ ordinal d + n
unfolding plus_days
ordinal-plus_days zero d h = omega arith
ordinal-plus_days (suc n) d h =
    ordinal-plus_days n (tomorrow d) (tomorrow-IsDay d h) ∙ sum (ordinal-tomorrow d h)
  where
    sum : {a b : ℕ} → a ≡ suc b → a + n ≡ b + suc n
    sum e = omega arith

abbrev first_day : Date
first_day = record { year = 1; month = 1; day = 1 }

-- The date of an ordinal: `date.fromordinal(n + 1)`
abbrev pub of_ordinal : ℕ → Date
of_ordinal n = plus_days n first_day

pub of_ordinal-IsDay : (n : ℕ) → IsDay (of_ordinal n)
of_ordinal-IsDay n = plus_days-IsDay n first_day (record {
  year = omega arith;
  month = omega arith;
  month_le = omega arith;
  day = omega arith;
  day_le = omega arith;
})

-- `d.replace(year=d.year + n)`
abbrev pub years_later : ℕ → Date → Option Date
years_later n d = make_date (d.year + n) d.month d.day

-- Five years after a 29th of February there is none.
pub years_later-leap_day : (d : Date) → IsDay d → d.month ≡ 2 → d.day ≡ 29 → years_later 5 d ≡ none
years_later-leap_day d h m e = let le = h.day_le in ground (arith, le)
