-- ===== src/Scheduling/Close.antt =====
-- src/application/appointment: cancel_appointment.py and complete_appointment.py
use schedule_appointments.Base.{ℕ, Option, none, some, ◌∷◌, ◌++◌, is_empty, or_else, if◌then◌else◌}
use schedule_appointments.Base.Int.{ℤ}
use schedule_appointments.Base.Text.{Text}
use schedule_appointments.Errors.{not_found, conflict, no_appointment, already_attended}
use schedule_appointments.Appointment
use schedule_appointments.Appointment.{Appointment, Status, is_completed}
use schedule_appointments.Store.Tables.{
  ◌>>=◌, ◌>>◌, Tx, pure, query, require, lift, modify, reject_if,
}
use schedule_appointments.Store.Appointments
use schedule_appointments.Scheduling.Move.{changed}

pub record CancelOutput : Type 0 where
  pub appointment_id : ℕ
  pub status : Status

unfoldable pub cancel_appointment : ℕ → ℕ → ℕ → Option Text → Tx CancelOutput
cancel_appointment tenant now id reason = do
  a ← require (← query (Appointments.get_by_id tenant id)) (not_found no_appointment)
  a' ← lift (changed (Appointment.cancel reason now a))
  modify (Appointments.update a')
  pure (record { appointment_id = a'.id; status = a'.status })

pub record CompleteOutput : Type 0 where
  pub appointment_id : ℕ
  pub status : Status
  pub amount_charged : ℕ
  pub completed_at : Option ℕ

-- `f"{apt.notes}\n{note}" if apt.notes else note`, where a note is given.
abbrev joined : Option Text → Text → Text
joined none note = note
joined (some n) note = if is_empty n then note else n ++ (10 ∷ note)

abbrev pub noted : Option Text → Appointment → Appointment
noted none a = a
noted (some note) a = if is_empty note then a else record a { notes = some (joined a.notes note) }

unfoldable pub complete_appointment : ℕ → ℕ → ℕ → ℤ → Option Text → Tx CompleteOutput
complete_appointment tenant now id amount note = do
  a ← require (← query (Appointments.get_by_id tenant id)) (not_found no_appointment)
  reject_if (is_completed a.status) (conflict already_attended)
  closed ← lift (changed (Appointment.complete amount now a))
  let a' = noted note closed
  modify (Appointments.update a')
  pure (record {
    appointment_id = a'.id;
    status = a'.status;
    amount_charged = or_else a'.amount_charged 0;
    completed_at = a'.completed_at;
  })
