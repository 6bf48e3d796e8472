-- ===== src/Availability.antt =====
-- src/application/appointment/get_available_slots.py
-- A date is its number of days since the first day of datetime, which is a Monday. A local moment is
-- the number of microseconds since the first midnight, read in the time zone of the business. Start
-- times stand for the ISO texts that the code makes of them.
pub mod Loop
pub mod Agree
pub mod Offered
use schedule_appointments.Base.{
  ℕ, zero, suc, ◌+◌, ◌/◌, ◌%◌, not, Option, none, some, List, [], ◌∷◌, ◌++◌, map, leb, keep,
  or_else, if◌then◌else◌,
}
use schedule_appointments.Base.Clock.{days}
use schedule_appointments.Base.Text.{Text}
use schedule_appointments.Errors.{Result, ok, err, not_found, no_service}
use schedule_appointments.Appointment.{Appointment, minutes}
use schedule_appointments.Service.{Service, is_group_class}
use schedule_appointments.Hours.{BusinessHour}
use schedule_appointments.Slot.{Capacities, SlotEvaluation, evaluate_slot, is_bookable}
use schedule_appointments.Store.Tables.{Db}
use schedule_appointments.Store.Appointments
use schedule_appointments.Store.Services
use schedule_appointments.Store.Hours as HourStore
use schedule_appointments.Scheduling.{service_ids}

-- `GetAvailableSlotsInput`
pub record SlotsInput : Type 0 where
  pub business_id : ℕ
  pub service_id : ℕ
  pub on_date : ℕ
  pub professional_id : Option ℕ
  pub business_timezone : Text

pub record SlotAvailability : Type 0 where
  pub start : ℕ
  pub remaining : ℕ
  pub capacity : ℕ

pub record SlotsOutput : Type 0 where
  pub slots : List ℕ
  pub date : ℕ
  pub service_duration_minutes : ℕ
  pub slots_detail : List SlotAvailability
  pub capacity : ℕ

-- The arguments of `_slots_in_range` but for the opening time.
pub record Grid : Type 0 where
  pub close : ℕ
  pub step : ℕ
  pub duration : ℕ
  pub service_id : ℕ
  pub capacity : ℕ
  pub booked : List Appointment
  pub caps : Capacities

abbrev pub slot_at : Grid → ℕ → SlotEvaluation
slot_at g slot =
    evaluate_slot
      (record {
        start = slot;
        stop = slot + g.duration;
        service_id = g.service_id;
        capacity = g.capacity;
        caps = g.caps;
        exclude = none;
      })
      g.booked

-- A slot that is evaluated as bookable is added in front of the later ones.
abbrev pub with_slot : Grid → ℕ → List SlotAvailability → List SlotAvailability
with_slot g slot rest =
    let e = slot_at g slot in
    if is_bookable e
    then record { start = slot; remaining = e.remaining; capacity = g.capacity } ∷ rest
    else rest

abbrev pub with_slots : Grid → ℕ → Option (List SlotAvailability) → Option (List SlotAvailability)
with_slots g slot none = none
with_slots g slot (some rest) = some (with_slot g slot rest)

-- The `while` loop with fuel; `none` means that the fuel ran out.
unfoldable pub slots_in_range : ℕ → Grid → ℕ → Option (List SlotAvailability)
slots_in_range zero g slot = none
slots_in_range (suc fuel) g slot =
    let all = with_slots g slot (slots_in_range fuel g (slot + g.step)) in
    if leb (slot + g.duration) g.close then all else some []

-- `date.weekday()`
abbrev pub weekday : ℕ → ℕ
weekday date = date % 7

-- `datetime(d.year, d.month, d.day, t.hour, t.minute)`
abbrev pub on_minute : ℕ → ℕ → ℕ
on_minute date time = days date + minutes (time / 60_000_000)

-- `_SLOT_INTERVAL` minutes, or the length of a class.
abbrev pub step_of : Service → ℕ
step_of s = minutes (if is_group_class s then s.duration_minutes else 15)

-- One range after another. Each round moves the start up, so the closing time bounds the rounds.
unfoldable pub all_slots : (ℕ → ℕ) → ℕ → Grid → List BusinessHour → Option (List SlotAvailability)
all_slots utc date g [] = some []
all_slots utc date g (h ∷ hs) =
    let close = utc (on_minute date h.close_at) in
    let here =
      slots_in_range (suc (suc close)) (record g { close = close })
        (utc (on_minute date h.open_at)) in
    let later = all_slots utc date g hs in
    elim here [ none ↦ none | some xs ↦ elim later [ none ↦ none | some ys ↦ some (xs ++ ys) ] ]

abbrev pub output_of : SlotsInput → Service → List SlotAvailability → SlotsOutput
output_of i s detail = record {
  slots = map (λ (x : SlotAvailability). x.start) detail;
  date = i.on_date;
  service_duration_minutes = s.duration_minutes;
  slots_detail = detail;
  capacity = s.capacity;
}

-- The appointments of the local day, from its first instant to the last second.
abbrev pub booked_on : (ℕ → ℕ) → ℕ → SlotsInput → Db → List Appointment
booked_on utc tenant i db =
    Appointments.list_active_in_range tenant i.business_id (utc (days i.on_date))
      (utc (days i.on_date + 86_399_000_000)) i.professional_id db

abbrev pub grid_of : (ℕ → ℕ) → ℕ → SlotsInput → Service → Db → Grid
grid_of utc tenant i s db = record {
  close = 0;
  step = step_of s;
  duration = minutes s.duration_minutes;
  service_id = i.service_id;
  capacity = s.capacity;
  booked = booked_on utc tenant i db;
  caps = Services.get_capacity_map tenant (service_ids i.service_id (booked_on utc tenant i db)) db;
}

abbrev pub open_ranges : ℕ → SlotsInput → Db → List BusinessHour
open_ranges tenant i db =
    keep (λ h. not h.is_closed)
      (HourStore.get_by_business_and_day tenant i.business_id (weekday i.on_date) db)

abbrev pub slots_of_service : (ℕ → ℕ) → ℕ → SlotsInput → Db → Service → Option (Result SlotsOutput)
slots_of_service utc tenant i db s =
    elim (all_slots utc i.on_date (grid_of utc tenant i s db) (open_ranges tenant i db)) [
      | none ↦ none
      | some detail ↦ some (ok (output_of i s detail))
    ]

-- `zones` gives what `ZoneInfo` knows of a name: the conversion of its local moments to UTC. An
-- unknown name counts as UTC. `none` means that a loop does not end.
unfoldable pub get_available_slots :
    (zones : Text → Option (ℕ → ℕ)) → ℕ → SlotsInput → Db → Option (Result SlotsOutput)
unfolding all_slots slots_in_range
get_available_slots zones tenant i db = elim (Services.get_by_id tenant i.service_id db) [
  | none ↦ some (err (not_found no_service))
  | some s ↦ slots_of_service (or_else (zones i.business_timezone) (λ t. t)) tenant i db s
]
