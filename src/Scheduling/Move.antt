-- ===== src/Scheduling/Move.antt =====
-- src/application/appointment/reschedule_appointment.py
use schedule_appointments.Base.{ℕ, ◌+◌, Bool, true, false, Option, none, some, List, []}
use schedule_appointments.Base.Clock.{DateTime, aware, naive}
use schedule_appointments.Errors.{
  Result, ok, err, not_found, validation, no_appointment, naive_time,
}
use schedule_appointments.Appointment
use schedule_appointments.Appointment.{Appointment, Status, ends_at, minutes}
use schedule_appointments.Service.{Service}
use schedule_appointments.Slot.{Capacities, SlotEvaluation, evaluate_slot}
use schedule_appointments.Store.Tables.{◌>>=◌, ◌>>◌, Db, Tx, pure, query, require, lift, modify}
use schedule_appointments.Store.Appointments
use schedule_appointments.Store.Services
use schedule_appointments.Scheduling.Book.{admit, service_ids, spots_after}

pub record MoveOutput : Type 0 where
  pub appointment_id : ℕ
  pub scheduled_at : ℕ
  pub duration_minutes : ℕ
  pub ends_at : ℕ
  pub status : Status
  pub spots_left : Option ℕ

abbrev pub aware_start : DateTime → Result ℕ
aware_start (aware t) = ok t
aware_start (naive _) = err (validation naive_time)

-- The use case may be built without the repository of services: then every service counts as
-- one-to-one.
abbrev pub known_capacity : Bool → Option Service → ℕ
known_capacity true (some s) = s.capacity
known_capacity _ _ = 1

abbrev pub known_capacities : Bool → ℕ → ℕ → List Appointment → Db → Capacities
known_capacities true tenant service booked db =
    Services.get_capacity_map tenant (service_ids service booked) db
known_capacities false tenant service booked db = []

abbrev pub new_slot_of : Bool → ℕ → Appointment → ℕ → Db → SlotEvaluation
new_slot_of knows_services tenant a start db =
    let stop = start + minutes a.duration_minutes in
    let booked =
      Appointments.list_active_in_range tenant a.business_id start stop a.professional_id db in
    evaluate_slot
      (record {
        start = start;
        stop = stop;
        service_id = a.service_id;
        capacity = known_capacity knows_services (Services.lock_for_update tenant a.service_id db);
        caps = known_capacities knows_services tenant a.service_id booked db;
        exclude = some a.id;
      })
      booked

-- A method call on a loaded entity: an exception leaves the transaction, so what it wrote before
-- that is lost.
abbrev pub changed : Appointment.Outcome → Result Appointment
changed (ok _, a) = ok a
changed (err e, a) = err e

-- Move the entity, persist it and answer.
unfoldable pub save_move : ℕ → ℕ → ℕ → Appointment → SlotEvaluation → Tx MoveOutput
save_move now capacity start a e = do
  moved ← lift (changed (Appointment.reschedule start none now a))
  modify (Appointments.update moved)
  pure (record {
    appointment_id = moved.id;
    scheduled_at = moved.scheduled_at;
    duration_minutes = moved.duration_minutes;
    ends_at = ends_at moved;
    status = moved.status;
    spots_left = spots_after capacity e;
  })

unfoldable pub reschedule_appointment : Bool → ℕ → ℕ → ℕ → DateTime → Tx MoveOutput
unfolding save_move
reschedule_appointment knows_services tenant now id new_start = do
  start ← lift (aware_start new_start)
  a ← require (← query (Appointments.get_by_id tenant id)) (not_found no_appointment)
  locked ← query (Services.lock_for_update tenant a.service_id)
  let capacity = known_capacity knows_services locked
  e ← query (new_slot_of knows_services tenant a start)
  ready ← admit capacity e
  save_move now capacity start a ready
