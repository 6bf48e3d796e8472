-- ===== src/Appointment.antt =====
-- src/domain/appointment: the entity Appointment and its methods. Times are microseconds since the
-- first instant of datetime, in UTC. Each method reads the clock once, as its argument `now`.
pub mod Lifecycle
use schedule_appointments.Base.{
  ℕ, ◌+◌, ◌*◌, Bool, true, false, Option, none, some, not, leb, if◌then◌else◌,
}
use schedule_appointments.Base.Int.{ℤ, pos, pos_part, ltb_ℤ}
use schedule_appointments.Base.Text.{Text}
use schedule_appointments.Errors.{
  Result, ok, err, business_rule, short_duration, not_in_future, wrong_status, negative_amount,
}

pub data Status : Type 0 where
  pending confirmed completed cancelled no_show rescheduled : Status

pub record Appointment : Type 0 where
  pub id : ℕ
  pub tenant_id : ℕ
  pub business_id : ℕ
  pub service_id : ℕ
  pub client_id : ℕ
  pub scheduled_at : ℕ
  pub duration_minutes : ℕ
  pub status : Status
  pub professional_id : Option ℕ
  pub notes : Option Text
  pub cancelled_reason : Option Text
  pub cancelled_at : Option ℕ
  pub reminder_sent_at : Option ℕ
  pub amount_charged : Option ℕ
  pub completed_at : Option ℕ
  pub created_at : ℕ
  pub updated_at : ℕ

-- `timedelta(minutes=n)`
abbrev pub minutes : ℕ → ℕ
minutes n = n * 60_000_000

-- The keyword arguments of `Appointment.book`.
pub record Booking : Type 0 where
  pub tenant_id : ℕ
  pub business_id : ℕ
  pub service_id : ℕ
  pub client_id : ℕ
  pub scheduled_at : ℕ
  pub duration_minutes : ℤ
  pub professional_id : Option ℕ
  pub notes : Option Text

-- `new_id` is the id that `uuid4` gives.
unfoldable pub book : ℕ → ℕ → Booking → Result Appointment
book new_id now b =
    if ltb_ℤ b.duration_minutes (pos 1)
    then err (business_rule short_duration)
    else if leb b.scheduled_at now
    then err (business_rule not_in_future)
    else ok (record {
      id = new_id;
      tenant_id = b.tenant_id;
      business_id = b.business_id;
      service_id = b.service_id;
      client_id = b.client_id;
      scheduled_at = b.scheduled_at;
      duration_minutes = pos_part b.duration_minutes;
      status = pending;
      professional_id = b.professional_id;
      notes = b.notes;
      cancelled_reason = none;
      cancelled_at = none;
      reminder_sent_at = none;
      amount_charged = none;
      completed_at = none;
      created_at = now;
      updated_at = now;
    })

abbrev pub ends_at : Appointment → ℕ
ends_at a = a.scheduled_at + minutes a.duration_minutes

-- `self.status in (COMPLETED, CANCELLED)`
abbrev pub is_closed : Status → Bool
is_closed completed = true
is_closed cancelled = true
is_closed _ = false

-- `Appointment._CLOSEABLE`
abbrev pub is_closeable : Status → Bool
is_closeable pending = true
is_closeable confirmed = true
is_closeable rescheduled = true
is_closeable _ = false

abbrev pub is_pending : Status → Bool
is_pending pending = true
is_pending _ = false

abbrev pub is_completed : Status → Bool
is_completed completed = true
is_completed _ = false

abbrev pub Outcome : Type 0
Outcome = Result (Unit {0}) × Appointment

abbrev pub refuse : Appointment → Outcome
refuse a = (err (business_rule wrong_status), a)

unfoldable pub confirm : ℕ → Appointment → Outcome
confirm now a =
    if is_pending a.status
    then (ok tt, record a { status = confirmed; updated_at = now })
    else refuse a

unfoldable pub cancel : Option Text → ℕ → Appointment → Outcome
cancel reason now a = if is_closed a.status then refuse a else (
  ok tt,
  record a {
    status = cancelled;
    cancelled_reason = reason;
    cancelled_at = some now;
    updated_at = now;
  },
)

-- The start is moved before the new duration is looked at, and stays moved if that is refused.
unfoldable pub reschedule : ℕ → Option ℤ → ℕ → Appointment → Outcome
reschedule new_start new_duration now a =
    if is_closed a.status
    then refuse a
    else if leb new_start now
    then (err (business_rule not_in_future), a)
    else let moved = record a { scheduled_at = new_start } in
      let finish =
        λ (d : ℕ). record moved { duration_minutes = d; status = rescheduled; updated_at = now } in
      elim new_duration [
        | none ↦ (ok tt, finish a.duration_minutes)
        | some d ↦
            (if ltb_ℤ d (pos 1)
              then (err (business_rule short_duration), moved)
              else (ok tt, finish (pos_part d)))
      ]

unfoldable pub complete : ℤ → ℕ → Appointment → Outcome
complete amount now a =
    if not (is_closeable a.status)
    then refuse a
    else if ltb_ℤ amount (pos 0)
    then (err (business_rule negative_amount), a)
    else (
      ok tt,
      record a {
        status = completed;
        amount_charged = some (pos_part amount);
        completed_at = some now;
        updated_at = now;
      },
    )

unfoldable pub mark_no_show : ℕ → Appointment → Outcome
mark_no_show now a =
    if not (is_closeable a.status)
    then refuse a
    else (ok tt, record a { status = no_show; updated_at = now })

unfoldable pub mark_reminder_sent : ℕ → Appointment → Outcome
mark_reminder_sent now a = (ok tt, record a { reminder_sent_at = some now; updated_at = now })
