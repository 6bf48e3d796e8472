-- ===== src/Schedule/Week.antt =====
-- src/application/business_hours/get_business_hours.py, without the names of the weekdays.
use schedule_appointments.Base.{ℕ, Bool, List, map}
use schedule_appointments.Hours.{BusinessHour}
use schedule_appointments.Store.Tables.{◌>>=◌, Tx, pure, query}
use schedule_appointments.Store.Hours as HourStore

-- `DayScheduleOutput`
pub record DayOutput : Type 0 where
  pub day_of_week : ℕ
  pub open_at : ℕ
  pub close_at : ℕ
  pub is_closed : Bool

abbrev day_output : BusinessHour → DayOutput
day_output h = record {
  day_of_week = h.day_of_week;
  open_at = h.open_at;
  close_at = h.close_at;
  is_closed = h.is_closed;
}

unfoldable pub get_business_hours : (tenant business : ℕ) → Tx (List DayOutput)
get_business_hours tenant business = do
  hours ← query (HourStore.get_by_business tenant business)
  pure (map day_output hours)
