-- ===== src/Reminders.antt =====
-- src/infrastructure/scheduler/reminder_scheduler.py: one pass of the reminders. The client of WhatsApp
-- is an argument, which may answer anything to each message; an exception that it raises is caught and
-- logged by the loop, as if the message had not been sent.
use schedule_appointments.Base.{
  ℕ, ◌+◌, ◌*◌, Bool, true, false, ◌&&◌, not, Option, some, List, [], ◌∷◌, ◌++◌, ◌==◌, leb, first,
  keep, map, is_none, if◌then◌else◌,
}
use schedule_appointments.Base.Text.{Text}
use schedule_appointments.Appointment.{Appointment, Status, pending, confirmed}
use schedule_appointments.Business.{Business, is_given}
use schedule_appointments.Client.{Client}
use schedule_appointments.Service.{Service}
use schedule_appointments.Store.Tables.{Db}
use schedule_appointments.Campaigns.{Answer, delivered, refused, raised}

-- A call of `send_interactive_buttons`: the parts of its text, and the appointment that its three
-- buttons name.
pub record Reminder : Type 0 where
  pub to : Text
  pub business_name : Text
  pub client_name : Text
  pub service_name : Text
  pub scheduled_at : ℕ
  pub appointment_id : ℕ

pub record State : Type 0 where
  pub db : Db
  pub outbox : List Reminder

abbrev pub Network : Type 0
Network = List Reminder → Reminder → Answer

abbrev hours : ℕ → ℕ
hours n = n * 3_600_000_000

abbrev pub is_remindable : Status → Bool
is_remindable pending = true
is_remindable confirmed = true
is_remindable _ = false

-- The window is from 23 to 25 hours ahead.
unfoldable pub is_due : (now : ℕ) → Appointment → Bool
is_due now a =
    is_remindable a.status
    && (leb (now + hours 23) a.scheduled_at
        && (leb a.scheduled_at (now + hours 25) && is_none a.reminder_sent_at))

-- The columns that the update writes; `updated_at` is set to the database's clock.
abbrev pub mark_reminded : (now id : ℕ) → Db → Db
mark_reminded now id db = record db {
  appointments =
      map
        (λ (a : Appointment).
          if a.id == id then record a { reminder_sent_at = some now; updated_at = now } else a)
        db.appointments;
}

abbrev pub answered : (now id : ℕ) → Answer → State → State
answered now id delivered st = record st { db = mark_reminded now id st.db }
answered now id refused st = st
answered now id raised st = st

abbrev reminder : Appointment → Business → Client → Service → Reminder
reminder a b c s = record {
  to = c.whatsapp_number;
  business_name = b.name;
  client_name = c.name;
  service_name = s.name;
  scheduled_at = a.scheduled_at;
  appointment_id = a.id;
}

abbrev pub remind :
    Network
    → (now : ℕ) → Appointment
    → Option Business
    → Option Client
    → Option Service
    → State
    → State
remind net now a (some b) (some c) (some s) st =
    if not (is_given b.whatsapp_phone_number_id)
    then st
    else let r = reminder a b c s in
      answered now a.id (net st.outbox r) (record st { outbox = st.outbox ++ r ∷ [] })
remind net now a _ _ _ st = st

-- `_process_one`
unfoldable pub process_one : Network → (now : ℕ) → Appointment → State → State
process_one net now a st =
    remind net now a (first (λ (b : Business). b.id == a.business_id) st.db.businesses)
      (first (λ (c : Client). c.id == a.client_id) st.db.clients)
      (first (λ (s : Service). s.id == a.service_id) st.db.services) st

abbrev pub process_all : Network → (now : ℕ) → List Appointment → State → State
process_all net now [] st = st
process_all net now (a ∷ rest) st = process_all net now rest (process_one net now a st)

-- `_send_reminders_once`; the moments at which the reminders are marked are not told apart from the
-- one at which the pass begins.
unfoldable pub send_reminders_once : Network → (now : ℕ) → State → State
unfolding is_due process_one
send_reminders_once net now st = process_all net now (keep (is_due now) st.db.appointments) st
