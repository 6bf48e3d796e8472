-- ===== src/Store/Appointments.antt =====
-- src/infrastructure/persistence/repositories/appointment_repository.py
use schedule_appointments.Base.{
  ℕ, Bool, true, false, ◌&&◌, Option, none, some, List, [], ◌∷◌, ◌++◌, ◌==◌, ltb, first, keep,
  count, page, leb, ◌+◌,
}
use schedule_appointments.Base.Clock.{days}
use schedule_appointments.Base.Sort.{sort_on}
use schedule_appointments.Appointment.{
  Appointment, Status, pending, confirmed, completed, cancelled, no_show, rescheduled, ends_at,
}
use schedule_appointments.Store.Tables.{Db}
use schedule_appointments.Store.Rows.{merge}

-- `active_statuses`
abbrev pub is_live : Status → Bool
is_live pending = true
is_live confirmed = true
is_live rescheduled = true
is_live completed = false
is_live cancelled = false
is_live no_show = false

-- The condition on the professional is made only where one is given.
abbrev pub is_with : Option ℕ → Appointment → Bool
is_with none a = true
is_with (some p) a = elim a.professional_id [ none ↦ false | some q ↦ q == p ]

module _ (tenant : ℕ) where
  unfoldable pub get_by_id : ℕ → Db → Option Appointment
  get_by_id id db = first (λ a. a.id == id && a.tenant_id == tenant) db.appointments

  -- The query's conditions, and the test on the end that is made in Python.
  abbrev pub is_selected : ℕ → ℕ → Option ℕ → Appointment → Bool
  is_selected business stop professional a =
      a.business_id == business
      && (a.tenant_id == tenant
          && (is_live a.status && (ltb a.scheduled_at stop && is_with professional a)))

  unfoldable pub list_active_in_range : ℕ → ℕ → ℕ → Option ℕ → Db → List Appointment
  list_active_in_range business start stop professional db =
      keep (λ a. ltb start (ends_at a))
        (keep (is_selected business stop professional) db.appointments)

  abbrev pub is_seat_of : ℕ → ℕ → ℕ → Appointment → Bool
  is_seat_of client service start a =
      a.tenant_id == tenant
      && (a.client_id == client
          && (a.service_id == service && (a.scheduled_at == start && is_live a.status)))

  unfoldable pub get_active_for_client_at : ℕ → ℕ → ℕ → Db → Option Appointment
  get_active_for_client_at client service start db =
      first (is_seat_of client service start) db.appointments

  abbrev pub is_in_session : ℕ → ℕ → Appointment → Bool
  is_in_session service start a =
      a.tenant_id == tenant
      && (a.service_id == service && (a.scheduled_at == start && is_live a.status))

  unfoldable pub count_active_for_service_at : ℕ → ℕ → Db → ℕ
  count_active_for_service_at service start db = count (is_in_session service start) db.appointments

-- The conditions on a date, which is the number of days from the first of datetime to it: up to the
-- last full second of the day.
abbrev pub is_on : Option ℕ → Appointment → Bool
is_on none a = true
is_on (some date) a =
    leb (days date) a.scheduled_at && leb a.scheduled_at (days date + 86_399_000_000)

module _ (tenant : ℕ) where
  abbrev pub is_listed : ℕ → Option ℕ → Appointment → Bool
  is_listed business date a = a.business_id == business && (a.tenant_id == tenant && is_on date a)

  unfoldable pub list_by_business :
      (business : ℕ) → (on_date : Option ℕ) → (offset limit : ℕ) → Db → List Appointment
  list_by_business business date offset limit db = page offset limit (
      sort_on (λ (a : Appointment). a.scheduled_at)
        (keep (is_listed business date) db.appointments))

  unfoldable pub count_by_business : (business : ℕ) → (on_date : Option ℕ) → Db → ℕ
  count_by_business business date db = count (is_listed business date) db.appointments

unfoldable pub add : Appointment → Db → Db
add a db = record db { appointments = db.appointments ++ a ∷ [] }

unfoldable pub update : Appointment → Db → Db
update a db = record db { appointments = merge (λ (x : Appointment). x.id) a db.appointments }
