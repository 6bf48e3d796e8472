-- ===== src/Examples/Entities.antt =====
-- Appointments and services through their methods.
use schedule_appointments.Base.{◌≡◌, ◌≢◌, refl, ◌↔◌, true, none, some, [], ◌∷◌, ◌+◌}
use schedule_appointments.Base.Int.{pos}
use schedule_appointments.Base.Text.{codes, strip}
use schedule_appointments.Appointment
use schedule_appointments.Appointment.{Appointment, pending, cancelled, completed, Booking}
use schedule_appointments.Appointment.Lifecycle.{
  Call, confirm, cancel, complete, reschedule, mark_no_show, perform, perform_all, edge, SameRecord,
  IsConsistent, status_edges, closed_forever, booked-IsConsistent,
}
use schedule_appointments.Service
use schedule_appointments.Service.{Service}
use schedule_appointments.Service.Valid.{update, deactivate, edit_all, IsValid, service-IsValid}
use schedule_appointments.Examples.Data.{seat, haircut, ten, now}

status_edges_example :
    (edge pending cancelled ≡ true)
    ↔ ((c : Call) × ((perform c seat).1.status ≡ cancelled) × (cancelled ≢ pending))
status_edges_example = status_edges seat cancelled

abbrev paid : Appointment
paid = record seat { status = completed; amount_charged = some 1500; completed_at = some ten }

closed_forever_example :
    SameRecord paid
      (perform_all (cancel none now ∷ reschedule (ten + 1) none now ∷ mark_no_show now ∷ []) paid)
closed_forever_example =
    closed_forever (cancel none now ∷ reschedule (ten + 1) none now ∷ mark_no_show now ∷ []) paid
      refl

abbrev booking : Booking
booking = record {
  tenant_id = 1;
  business_id = 10;
  service_id = 100;
  client_id = 50;
  scheduled_at = ten;
  duration_minutes = pos 60;
  professional_id = none;
  notes = none;
}

abbrev booked : Appointment
booked = record seat { created_at = now; updated_at = now }

booked-IsConsistent_example :
    IsConsistent (perform_all (confirm now ∷ complete (pos 1500) now ∷ cancel none now ∷ []) booked)
unfolding Appointment.book
booked-IsConsistent_example =
    booked-IsConsistent 1 now booking booked
      (confirm now ∷ complete (pos 1500) now ∷ cancel none now ∷ []) refl

abbrev draft : Service.Draft
draft = record {
  tenant_id = 1;
  business_id = 10;
  name = codes " Corte";
  duration_minutes = pos 30;
  description = none;
  price = some (pos 1500);
  capacity = pos 1;
}

abbrev no_name : Service.Changes
no_name = record {
  name = some (codes "  ");
  description = none;
  duration_minutes = some (pos 45);
  price = none;
  capacity = none;
}

abbrev created : Service
created = record haircut { id = 7; created_at = now; updated_at = now }

service-IsValid_example : IsValid (edit_all (update no_name now ∷ deactivate now ∷ []) created)
unfolding Service.create strip
service-IsValid_example =
    service-IsValid 7 now draft created (update no_name now ∷ deactivate now ∷ []) refl
