-- ===== src/DateParser/Dates.antt =====
-- Which dates parse_date gives.
use schedule_appointments.Base.{
  ℕ, ◌+◌, ◌-◌, ◌%◌, ◌≤◌, ◌<◌, ◌≡◌, refl, sym, subst, ap, ◌∙◌, Bool, true, false, ◌&&◌, ◌||◌, Option,
  none, some, arith, ltb, ◌==◌, if◌then◌else◌,
}
use schedule_appointments.Base.Calendar.{
  Date, IsDay, ordinal, weekday, plus_days, ordinal-plus_days,
}
use schedule_appointments.Errors.{ok}
use schedule_appointments.DateParser.{
  DayOf, Found, parsed, from_words, from_name, from_numbers, from_day, of_month, or_bare,
  parse_date, days_ahead, in_month, of_some_month,
}

-- The text names no date in digits.
abbrev pub NoDigits : Found → Type 0
NoDigits f = (f.iso ≡ none) × (f.dmy ≡ none)

-- The text has no relative keyword.
abbrev pub NoKeyword : Found → Type 0
NoKeyword f = (f.day_after_tomorrow ≡ false) × (f.tomorrow ≡ false) × (f.today ≡ false)

days_ahead_bounds :
    (force : Bool) (n : ℕ) (today : Date)
    → n < 7
    → (1 ≤ days_ahead force n today)
      × (days_ahead force n today ≤ 14)
      × ((ordinal today + days_ahead force n today) % 7 ≡ n)
days_ahead_bounds force n today h = week force n (ordinal today) h
  where
    week :
        (force : Bool) (n o : ℕ)
        → n < 7
        → let delta = (n + 7 - o % 7) % 7 in
          let ahead = if delta == 0 || force then delta + 7 else delta in
          (1 ≤ ahead) × (ahead ≤ 14) × ((o + ahead) % 7 ≡ n)
    week force n o h = ground arith

words_only :
    (f : Found) (today : Date)
    → NoDigits f
    → NoKeyword f
    → parse_date f today ≡ ok (from_name f.day_name f today)
unfolding parse_date
words_only f today digits words =
    numbers f.iso f.dmy (from_words f today) digits
    ∙ ap ok (keywords f.day_after_tomorrow f.tomorrow f.today (from_name f.day_name f today) words)
  where
    numbers :
        (iso dmy words : Option Date)
        → (iso ≡ none) × (dmy ≡ none)
        → parsed iso dmy words ≡ ok words
    numbers iso dmy words h = rw (h.0, h.1) refl

    keywords :
        (a b c : Bool) (o : Option Date)
        → (a ≡ false) × (b ≡ false) × (c ≡ false)
        → (if a
            then some (plus_days 2 today)
            else if b
            then some (plus_days 1 today)
            else if c
            then some today
            else o)
          ≡ o
    keywords a b c o h = rw (h.0, h.1, h.2) refl

-- A weekday's name, where no date in digits and no relative keyword comes first, gives a date of that
-- weekday, one to fourteen days after today.
pub named_weekday :
    (f : Found) (today : Date) (n : ℕ)
    → IsDay today
    → NoDigits f
    → NoKeyword f
    → f.day_name ≡ some n
    → n < 7
    → (d : Date) × (parse_date f today ≡ ok (some d))
      × (weekday d ≡ n)
      × (ordinal today + 1 ≤ ordinal d)
      × (ordinal d ≤ ordinal today + 14)
unfolding parse_date
named_weekday f today n h digits words name le =
    let bounds = days_ahead_bounds f.force_next n today le in
    let sum = ordinal-plus_days (days_ahead f.force_next n today) today h in
    (
      plus_days (days_ahead f.force_next n today) today,
      words_only f today digits words ∙ ap (λ x. ok (from_name x f today)) name,
      ap (λ k. k % 7) sum ∙ bounds.2,
      omega (arith, sum, bounds.0),
      omega (arith, sum, bounds.1),
    )

-- Python's order of dates: by year, month and day.
abbrev pub is_past : Date → Date → Bool
is_past d today =
    ltb d.year today.year
    || (d.year == today.year
        && (ltb d.month today.month || (d.month == today.month && ltb d.day today.day)))

-- A day with a month's name is never in the past.
pub in_month-is_past :
    (n m : ℕ) (today d : Date) → in_month n m today ≡ some d → is_past d today ≡ false
in_month-is_past n m today d h = ground arith

last_month :
    (today : Date) (n : ℕ)
    → IsDay today
    → today.year ≤ 9_999
    → today.month ≡ 12
    → 1 ≤ n
    → n < today.day
    → of_some_month n today ≡ some (record { year = today.year; month = 1; day = n })
last_month today n h y december low less =
    let first = h.year in let last = h.day_le in ground (arith, first, last)

-- A day without a month, after "el", of a lower number than today's gives, in December, the January
-- of the present year, which has passed.
pub el_in_december :
    (f : Found) (today : Date) (n : ℕ)
    → IsDay today
    → today.year ≤ 9_999
    → NoDigits f
    → NoKeyword f
    → f.day_name ≡ none
    → f.el ≡ some (record { day = n; month = none })
    → today.month ≡ 12
    → 1 ≤ n
    → n < today.day
    → let d : Date = record { year = today.year; month = 1; day = n } in
      (parse_date f today ≡ ok (some d)) × (is_past d today ≡ true)
unfolding parse_date
el_in_december f today n h year digits words name el december low less = (
  words_only f today digits words
      ∙ ap (λ x. ok (from_name x f today)) name
      ∙ ap ok (numbered f.el el),
  ground arith,
)
  where
    numbered :
        (e : Option DayOf)
        → e ≡ some (record { day = n; month = none })
        → from_numbers (record f { el = e }) today
          ≡ some (record { year = today.year; month = 1; day = n })
    numbered e s = rw (s, last_month today n h year december low less) refl

of_month-is_past :
    (m : Option ℕ) (n : ℕ) (today d : Date) → of_month m n today ≡ some d → is_past d today ≡ false
of_month-is_past none n today d h = cc
of_month-is_past (some m) n today d h = in_month-is_past n m today d h

or_bare-is_past :
    (o : Option Date) (bare : Option DayOf) (today d : Date)
    → ((e : Date) → o ≡ some e → is_past e today ≡ false)
    → or_bare o bare today ≡ some d
    → is_past d today ≡ false
or_bare-is_past (some e) bare today d k h =
    let same : e ≡ d = cc in subst (λ x. is_past x today ≡ false) same (k e refl)
or_bare-is_past none none today d k h = cc
or_bare-is_past none (some f) today d k h = of_month-is_past f.month f.day today d h

-- A day with a month's name after "el", where no date in digits, no relative keyword and no weekday
-- comes first, never gives a date in the past.
pub el_of_month :
    (f : Found) (today d : Date) (n m : ℕ)
    → NoDigits f
    → NoKeyword f
    → f.day_name ≡ none
    → f.el ≡ some (record { day = n; month = some m })
    → parse_date f today ≡ ok (some d)
    → is_past d today ≡ false
el_of_month f today d n m digits words name el h =
    or_bare-is_past (in_month n m today) f.bare today d (λ e. in_month-is_past n m today e)
      (ok_injective (
        sym (
          words_only f today digits words
          ∙ ap (λ x. ok (from_name x f today)) name
          ∙ ap (λ x. ok (from_day x f.bare today)) el)
        ∙ h))
  where
    ok_injective : {x y : Option Date} → ok x ≡ ok y → x ≡ y
    ok_injective h = cc
