-- ===== src/Examples/Hours.antt =====
-- The hours of a week, and the slots of a morning.
use schedule_appointments.Base.{
  ℕ, ◌≡◌, refl, ◌↔◌, true, false, Option, none, some, List, [], ◌∷◌, ◌+◌, arith, if◌then◌else◌, any,
}
use schedule_appointments.Base.Sort.{sort_on}
use schedule_appointments.Base.Int.{pos}
use schedule_appointments.Base.Text.{Text, codes}
use schedule_appointments.Base.Clock.{days}
use schedule_appointments.Errors.{Result, ok, err, attribute_error}
use schedule_appointments.Appointment.{minutes}
use schedule_appointments.Hours.{BusinessHour, update}
use schedule_appointments.Store.Tables.{Db}
use schedule_appointments.Store.Ensures.{Ensures}
use schedule_appointments.Store.Hours as HourStore
use schedule_appointments.Store.Hours.{is_on, DayKey}
use schedule_appointments.Store.Hours.Upsert.{day_of, get-upsert_many}
use schedule_appointments.Store.Services.{contains}
use schedule_appointments.Schedule.{DayEntry, set_business_hours, update_day_hours}
use schedule_appointments.Schedule.Orderly.{HoursInOrder, set_business_hours-HoursInOrder}
use schedule_appointments.Availability.{SlotsInput, SlotsOutput, get_available_slots, open_ranges}
use schedule_appointments.Availability.Offered.{Some, IsFree, offered_iff}
use schedule_appointments.Examples.Data.{empty_db, morning, yoga, seat, monday, ten, now, machine}

abbrev afternoon : BusinessHour
afternoon = record morning { id = 2; open_at = minutes 840; close_at = minutes 1080 }

abbrev mondays : DayKey
mondays = record { business_id = 10; day_of_week = 0 }

get-upsert_many_example :
    HourStore.get_by_business_and_day 1 10 0
      (HourStore.upsert_many 1 (afternoon ∷ morning ∷ []) empty_db)
    ≡ (if any (is_on mondays) (afternoon ∷ morning ∷ [])
        then day_of mondays (afternoon ∷ morning ∷ [])
        else HourStore.get_by_business_and_day 1 10 0 empty_db)
get-upsert_many_example =
    get-upsert_many 1 (afternoon ∷ morning ∷ []) mondays empty_db (refl, (refl, tt))

abbrev split_day : List DayEntry
split_day =
    record {
      day_of_week = pos 0;
      open_at = minutes 840;
      close_at = minutes 1080;
      is_closed = false;
    }
    ∷ record {
      day_of_week = pos 0;
      open_at = minutes 540;
      close_at = minutes 720;
      is_closed = false;
    }
    ∷ []

-- No hours at all are in order.
abbrev no_hours_db : Db
no_hours_db = record empty_db { hours = [] }

no_hours-HoursInOrder : HoursInOrder 1 10 no_hours_db
unfolding HourStore.get_by_business_and_day sort_on
no_hours-HoursInOrder = record { at = λ day. (tt, tt) }

set_business_hours-HoursInOrder_example :
    Ensures
      (set_business_hours (λ n. n) now 1 10 split_day no_hours_db)
      (λ _ db'. HoursInOrder 1 10 db')
set_business_hours-HoursInOrder_example =
    set_business_hours-HoursInOrder 1 10 (λ n. n) now split_day no_hours_db no_hours-HoursInOrder

-- A patch that passes the checks meets the method that the repository lacks.
valid_patch :
    update_day_hours now 1 10 0 none (some (minutes 780)) none empty_db ≡ err attribute_error
unfolding update_day_hours HourStore.get_by_business_and_day sort_on update
valid_patch = refl

-- A zone four hours behind UTC.
abbrev zones : Text → Option (ℕ → ℕ)
zones _ = some (λ t. t + minutes 240)

abbrev search_yoga : SlotsInput
search_yoga = record {
  business_id = 10;
  service_id = 100;
  on_date = monday;
  professional_id = none;
  business_timezone = codes "America/La_Paz";
}

abbrev seated_db : Db
seated_db = record empty_db { appointments = record seat { scheduled_at = ten + minutes 240 } ∷ [] }

-- Three classes of an hour fit between 9 and 12.
abbrev offered : List ℕ
offered =
    (days monday + minutes 780) ∷ (days monday + minutes 840) ∷ (days monday + minutes 900) ∷ []

slots_of : Option (Result SlotsOutput) → List ℕ
slots_of (some (ok out)) = out.slots
slots_of _ = []

offered_slots : slots_of (get_available_slots zones 1 search_yoga seated_db) ≡ offered
unfolding slots_of get_available_slots machine HourStore.get_by_business_and_day sort_on
offered_slots = refl

offered_iff_example :
    (out : SlotsOutput) × (get_available_slots zones 1 search_yoga seated_db ≡ some (ok out))
    × ((t : ℕ)
        → (contains t out.slots ≡ true)
          ↔ Some
              (IsFree (λ t. t + minutes 240) 1 search_yoga yoga seated_db t)
              (open_ranges 1 search_yoga seated_db))
unfolding machine HourStore.get_by_business_and_day sort_on
offered_iff_example =
    offered_iff zones 1 search_yoga yoga seated_db refl (omega arith) (omega arith)
