-- ===== src/Schedule/Orderly.antt =====
-- The opening hours of a business stay in order under the use cases of
-- src/application/business_hours.
use schedule_appointments.Base.{
  ℕ, ◌<◌, ◌≤◌, ◌≡◌, sym, ◌∙◌, inl, inr, Bool, not, List, arith, keep, any, All, All-keep,
  All-keep_of, Pairs, Pairs-keep, Pairs-keep_of, Pairs-map, Pairs-zip, Bool-cases,
}
use schedule_appointments.Base.Sort.{sort_on, sort_on-IsSorted, All-sort_on, Pairs-sort_on}
use schedule_appointments.Errors.{ok}
use schedule_appointments.Hours.{BusinessHour}
use schedule_appointments.Store.Tables.{Db}
use schedule_appointments.Store.Ensures.{Ensures, Ensures-lift}
use schedule_appointments.Store.Hours as HourStore
use schedule_appointments.Store.Hours.{DayKey, is_on}
use schedule_appointments.Store.Hours.Upsert.{day_of, get-upsert_many}
use schedule_appointments.Schedule.{DayEntry, validate_schedule, create_all, set_business_hours}
use schedule_appointments.Schedule.Entries.{
  AllMatch, create_all-AllMatch, open_hours, Apart, created-Apart, created-proper, AllMatch-on_day,
  AllMatch-tenant,
}
use schedule_appointments.Schedule.Groups.{validate_schedule-day}

abbrev pub is_open : BusinessHour → Bool
is_open h = not h.is_closed

-- The open ranges of a day: each ends after it starts, and each ends before the later ones start.
abbrev pub Orderly : List BusinessHour → Type 0
Orderly hs =
    All (λ h. h.open_at < h.close_at) (keep is_open hs)
    × Pairs (λ a b. a.close_at ≤ b.open_at) (keep is_open hs)

sorted_Orderly :
    (tenant business day : ℕ) (hs : List BusinessHour)
    → All (λ h. h.open_at < h.close_at) (open_hours tenant business day hs)
    → Pairs (Apart tenant business day) (open_hours tenant business day hs)
    → Orderly (day_of (record { business_id = business; day_of_week = day }) hs)
sorted_Orderly tenant business day hs proper apart = (
  All-keep_of _ is_open sorted (All-sort_on _ _ chosen (All-keep _ is_open chosen proper)),
  Pairs-keep_of _ is_open sorted (
      Pairs-map sorted (λ a b r x y. in_order a b r.0 (r.1 x y))
        (Pairs-zip _ _ sorted (sort_on-IsSorted _ chosen) (
          Pairs-sort_on _ _ chosen (λ a b r x y. flip a b (r y x))
            (Pairs-keep _ is_open chosen apart)))),
)
  where
    chosen : List BusinessHour
    chosen = keep (is_on (record { business_id = business; day_of_week = day })) hs

    sorted : List BusinessHour
    sorted = sort_on (λ (h : BusinessHour). h.open_at) chosen

    in_order :
        (a b : BusinessHour)
        → a.open_at ≤ b.open_at
        → Apart tenant business day a b
        → a.close_at ≤ b.open_at
    in_order a b le r = omega arith

    flip : (a b : BusinessHour) → Apart tenant business day a b → Apart tenant business day b a
    flip a b r = ground arith

module _ (tenant business : ℕ) where
  -- Every weekday of the business is in order.
  pub record HoursInOrder (db : Db) : Type 0 where
    pub at : (day : ℕ) → Orderly (HourStore.get_by_business_and_day tenant business day db)

  accepted-HoursInOrder :
      (schedule : List DayEntry) (hours : List BusinessHour) (db : Db)
      → validate_schedule schedule ≡ ok tt
      → AllMatch tenant business schedule hours
      → HoursInOrder db
      → HoursInOrder (HourStore.upsert_many tenant hours db)
  accepted-HoursInOrder schedule hours db valid m before = record {
    at = λ day.
        let k : DayKey = record { business_id = business; day_of_week = day } in
        let read =
          get-upsert_many tenant hours k db (AllMatch-tenant tenant business schedule hours m) in
        rw read (elim (Bool-cases (any (is_on k) hours)) [
          | inl given ↦
              let asked =
                validate_schedule-day day schedule valid
                  (sym (AllMatch-on_day tenant business day schedule hours m) ∙ given) in
              rw given (
                sorted_Orderly tenant business day hours
                  (created-proper tenant business day schedule hours m)
                  (created-Apart tenant business day schedule hours m asked))
          | inr other ↦ rw other (before.at day)
        ]);
  }

  -- Where the opening hours of every weekday of a business are in order (its open ranges end after
  -- they start and do not overlap, the earlier one first), they still are after a request to set
  -- the hours, whatever entries it has, that succeeds.
  pub set_business_hours-HoursInOrder :
      (new_ids : ℕ → ℕ) (now : ℕ) (schedule : List DayEntry) (db : Db)
      → HoursInOrder db
      → Ensures
          (set_business_hours new_ids now tenant business schedule db)
          (λ _ db'. HoursInOrder db')
  unfolding set_business_hours
  set_business_hours-HoursInOrder new_ids now schedule db before =
      Ensures-lift (validate_schedule schedule) _ db _ λ _ valid.
        Ensures-lift (create_all new_ids now tenant business 0 schedule) _ db _ λ hours made.
          accepted-HoursInOrder schedule hours db valid
            (create_all-AllMatch new_ids now tenant business 0 schedule hours made) before
