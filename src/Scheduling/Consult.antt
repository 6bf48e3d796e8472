-- ===== src/Scheduling/Consult.antt =====
-- src/application/appointment: get_appointment.py and list_appointments.py. The answers copy the fields
-- of an appointment; here they hold the appointment.
use schedule_appointments.Base.{ℕ, ◌-◌, ◌*◌, Bool, Option, none, some, List, map, if◌then◌else◌}
use schedule_appointments.Base.Text.{Text, codes}
use schedule_appointments.Errors.{not_found, no_appointment}
use schedule_appointments.Appointment.{Appointment, ends_at}
use schedule_appointments.Client.{Client}
use schedule_appointments.Service.{Service}
use schedule_appointments.Professional.{Professional}
use schedule_appointments.Store.Tables.{◌>>=◌, Db, Tx, pure, query, require}
use schedule_appointments.Store.Appointments
use schedule_appointments.Store.Clients
use schedule_appointments.Store.Services
use schedule_appointments.Store.Professionals

pub record AppointmentOutput : Type 0 where
  pub appointment : Appointment
  pub ends_at : ℕ

unfoldable pub get_appointment : (tenant id : ℕ) → Tx AppointmentOutput
get_appointment tenant id = do
  a ← require (← query (Appointments.get_by_id tenant id)) (not_found no_appointment)
  pure (record { appointment = a; ends_at = ends_at a })

pub record AppointmentSummary : Type 0 where
  pub appointment : Appointment
  pub service_name : Text
  pub client_name : Text
  pub professional_name : Option Text
  pub ends_at : ℕ
  pub service_price : Option ℕ

abbrev client_name : Option Client → Text
client_name none = codes "Unknown Client"
client_name (some c) = c.name

abbrev service_name : Option Service → Text
service_name none = codes "Unknown Service"
service_name (some s) = s.name

abbrev service_price : Option Service → Option ℕ
service_price none = none
service_price (some s) = s.price

abbrev name_of : Option Professional → Option Text
name_of none = none
name_of (some p) = some p.name

-- The use case may be built without the repository of the professionals.
abbrev professional_name : (tenant : ℕ) (knows_professionals : Bool) → Db → Option ℕ → Option Text
professional_name tenant knows db none = none
professional_name tenant knows db (some id) =
    if knows then name_of (Professionals.get_by_id tenant id db) else none

abbrev pub summary_of :
    (tenant : ℕ) (knows_professionals : Bool) → Db → Appointment → AppointmentSummary
summary_of tenant knows db a = record {
  appointment = a;
  service_name = service_name (Services.get_by_id tenant a.service_id db);
  client_name = client_name (Clients.get_by_id tenant a.client_id db);
  professional_name = professional_name tenant knows db a.professional_id;
  ends_at = ends_at a;
  service_price = service_price (Services.get_by_id tenant a.service_id db);
}

pub record ListAppointmentsOutput : Type 0 where
  pub appointments : List AppointmentSummary
  pub total : ℕ
  pub page : ℕ
  pub page_size : ℕ

-- The route takes pages from 1.
unfoldable pub list_appointments :
    (tenant : ℕ) (knows_professionals : Bool) (business : ℕ) (on_date : Option ℕ)
    (page page_size : ℕ)
    → Tx ListAppointmentsOutput
list_appointments tenant knows business on_date page page_size = do
  items ←
      query
        (Appointments.list_by_business tenant business on_date ((page - 1) * page_size) page_size)
  total ← query (Appointments.count_by_business tenant business on_date)
  summaries ← query (λ db. map (summary_of tenant knows db) items)
  pure (record { appointments = summaries; total = total; page = page; page_size = page_size })
