-- ===== src/Scheduling/Book.antt =====
-- src/application/appointment/book_appointment.py
use schedule_appointments.Base.{
  ℕ, ◌+◌, ◌-◌, Bool, true, false, ◌&&◌, not, Option, none, some, List, ◌∷◌, map, is_empty, ltb,
  ◌==◌, if◌then◌else◌,
}
use schedule_appointments.Base.Int.{pos}
use schedule_appointments.Base.Text.{Text, is_blank}
use schedule_appointments.Base.Clock.{DateTime, aware, naive}
use schedule_appointments.Errors.{
  Result, ok, err, not_found, validation, conflict, no_service, no_professional, foreign_business,
  inactive, not_assigned, class_full, slot_taken, naive_time, empty_name, empty_phone,
}
use schedule_appointments.Appointment
use schedule_appointments.Appointment.{Appointment, Status, ends_at, minutes}
use schedule_appointments.Service.{Service}
use schedule_appointments.Client
use schedule_appointments.Client.{Client, whatsapp}
use schedule_appointments.Slot.{SlotEvaluation, evaluate_slot, is_bookable}
use schedule_appointments.Store.Tables.{
  ◌>>=◌, ◌>>◌, Db, Tx, pure, raise, query, require, lift, modify, reject_if,
}
use schedule_appointments.Store.Appointments
use schedule_appointments.Store.Services
use schedule_appointments.Store.Services.{contains}
use schedule_appointments.Store.Clients
use schedule_appointments.Store.Professionals

pub record BookInput : Type 0 where
  pub business_id : ℕ
  pub service_id : ℕ
  pub scheduled_at : DateTime
  pub client_name : Text
  pub client_whatsapp : Text
  pub professional_id : Option ℕ
  pub notes : Option Text
  pub client_email : Option Text

pub record BookOutput : Type 0 where
  pub appointment_id : ℕ
  pub business_id : ℕ
  pub service_id : ℕ
  pub client_id : ℕ
  pub professional_id : Option ℕ
  pub scheduled_at : ℕ
  pub duration_minutes : ℕ
  pub status : Status
  pub ends_at : ℕ
  pub spots_left : Option ℕ
  pub already_booked : Bool

-- What a request finds: its tenant, the clock, and the ids that `uuid4` gives to what it creates.
pub record Request : Type 0 where
  pub tenant : ℕ
  pub now : ℕ
  pub client_id : ℕ
  pub appointment_id : ℕ

-- `_validate_input`, with the start in UTC.
abbrev pub validate_input : BookInput → Result ℕ
validate_input i =
    if is_blank i.client_name
    then err (validation empty_name)
    else if is_blank i.client_whatsapp
    then err (validation empty_phone)
    else elim i.scheduled_at [ aware t ↦ ok t | naive _ ↦ err (validation naive_time) ]

-- `not service or not service.is_active`
abbrev pub offered : Option Service → Option Service
offered none = none
offered (some s) = if s.is_active then some s else none

-- `assigned_ids and professional_id not in assigned_ids`
abbrev pub is_barred : List ℕ → ℕ → Bool
is_barred ids p = not (is_empty ids) && not (contains p ids)

abbrev pub check_professional : ℕ → BookInput → Service → ℕ → Tx (Unit {0})
check_professional tenant i s id = do
  p ← require (← query (Professionals.get_by_id tenant id)) (not_found no_professional)
  reject_if (not (p.business_id == i.business_id)) (validation foreign_business)
  reject_if (not p.is_active) (validation inactive)
  assigned ← query (Services.list_professional_ids tenant s.id)
  reject_if (is_barred assigned id) (validation not_assigned)

-- The use case may be built without the repository of professionals, and then checks none.
abbrev pub validate_professional : Bool → ℕ → BookInput → Service → Option ℕ → Tx (Unit {0})
validate_professional knows_staff tenant i s none = pure tt
validate_professional false tenant i s (some p) = pure tt
validate_professional true tenant i s (some p) = check_professional tenant i s p

abbrev pub client_draft : ℕ → BookInput → Client.Draft
client_draft tenant i = record {
  tenant_id = tenant;
  whatsapp_number = i.client_whatsapp;
  name = i.client_name;
  email = i.client_email;
  phone = none;
  notes = none;
  channel = whatsapp;
  external_id = none;
}

abbrev create_client : Request → BookInput → Tx Client
create_client r i = do
  c ← lift (Client.create r.client_id r.now (client_draft r.tenant i))
  modify (Clients.add c)
  pure c

abbrev or_create_client : Request → BookInput → Option Client → Tx Client
or_create_client r i none = create_client r i
or_create_client r i (some c) = pure c

unfoldable pub find_or_create_client : Request → BookInput → Tx Client
find_or_create_client r i = do
  found ← query (Clients.get_by_whatsapp r.tenant i.client_whatsapp)
  or_create_client r i found

-- `list({apt.service_id for apt in booked} | {service_id})`
abbrev pub service_ids : ℕ → List Appointment → List ℕ
service_ids service booked = service ∷ map (λ (a : Appointment). a.service_id) booked

-- The error of an evaluation that is not bookable.
abbrev pub admit : ℕ → SlotEvaluation → Tx SlotEvaluation
admit capacity e =
    if is_bookable e
    then pure e
    else if ltb 1 capacity && not e.blocked
    then raise (conflict class_full)
    else raise (conflict slot_taken)

abbrev pub slot_of : ℕ → Service → ℕ → Option ℕ → ℕ → Db → SlotEvaluation
slot_of tenant s business professional start db =
    let stop = start + minutes s.duration_minutes in
    let booked = Appointments.list_active_in_range tenant business start stop professional db in
    evaluate_slot
      (record {
        start = start;
        stop = stop;
        service_id = s.id;
        capacity = s.capacity;
        caps = Services.get_capacity_map tenant (service_ids s.id booked) db;
        exclude = none;
      })
      booked

unfoldable pub ensure_slot_available : ℕ → BookInput → Service → ℕ → Tx SlotEvaluation
ensure_slot_available tenant i s start = do
  locked ← query (Services.lock_for_update tenant s.id)
  e ← query (slot_of tenant s i.business_id i.professional_id start)
  admit s.capacity e

abbrev pub booking_of : Request → BookInput → Service → Client → ℕ → Appointment.Booking
booking_of r i s c start = record {
  tenant_id = r.tenant;
  business_id = i.business_id;
  service_id = i.service_id;
  client_id = c.id;
  scheduled_at = start;
  duration_minutes = pos s.duration_minutes;
  professional_id = i.professional_id;
  notes = i.notes;
}

abbrev pub output_of : Appointment → Option ℕ → Bool → BookOutput
output_of a spots already = record {
  appointment_id = a.id;
  business_id = a.business_id;
  service_id = a.service_id;
  client_id = a.client_id;
  professional_id = a.professional_id;
  scheduled_at = a.scheduled_at;
  duration_minutes = a.duration_minutes;
  status = a.status;
  ends_at = ends_at a;
  spots_left = spots;
  already_booked = already;
}

abbrev pub spots_after : ℕ → SlotEvaluation → Option ℕ
spots_after capacity e = if ltb 1 capacity then some (e.remaining - 1) else none

-- Persist the appointment and count it for its client.
unfoldable pub save_booking :
    Request → BookInput → Service → Client → ℕ → SlotEvaluation → Tx BookOutput
save_booking r i s c start e = do
  a ← lift (Appointment.book r.appointment_id r.now (booking_of r i s c start))
  modify (Appointments.add a)
  modify (Clients.update (Client.increment_appointment_count start r.now c))
  pure (output_of a (spots_after s.capacity e) false)

unfoldable pub book_new : Request → BookInput → Service → Client → ℕ → Tx BookOutput
unfolding ensure_slot_available save_booking
book_new r i s c start = do
  e ← ensure_slot_available r.tenant i s start
  save_booking r i s c start e

-- The idempotency check: a live booking of the same client, service and start is the answer.
abbrev pub or_book : Request → BookInput → Service → Client → ℕ → Option Appointment → Tx BookOutput
or_book r i s c start none = book_new r i s c start
or_book r i s c start (some a) = pure (output_of a none true)

abbrev pub book_for_client : Request → BookInput → Service → ℕ → Client → Tx BookOutput
book_for_client r i s start c = do
  existing ← query (Appointments.get_active_for_client_at r.tenant c.id s.id start)
  or_book r i s c start existing

unfoldable pub book_appointment : Bool → Request → BookInput → Tx BookOutput
unfolding find_or_create_client book_new
book_appointment knows_staff r i = do
  start ← lift (validate_input i)
  s ← require (offered (← query (Services.get_by_id r.tenant i.service_id))) (not_found no_service)
  reject_if (not (s.business_id == i.business_id)) (validation foreign_business)
  validate_professional knows_staff r.tenant i s i.professional_id
  c ← find_or_create_client r i
  book_for_client r i s start c
