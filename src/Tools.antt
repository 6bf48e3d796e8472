-- ===== src/Tools.antt =====
-- src/infrastructure/ai/agent_tools.py: the tools of the agent that write, and what they do to the
-- database session that they share with the message that the agent answers.
mod Cases
pub mod Kept
use schedule_appointments.Base.{
  ℕ, Bool, true, false, Option, none, some, List, [], ◌∷◌, ◌==◌, is_empty, if◌then◌else◌,
}
use schedule_appointments.Base.Text.{Text, strip}
use schedule_appointments.Base.Clock.{aware}
use schedule_appointments.Errors.{Result, ok, err}
use schedule_appointments.Appointment.{Appointment}
use schedule_appointments.Client
use schedule_appointments.Client.{Client}
use schedule_appointments.Conversation
use schedule_appointments.Conversation.{Sender, HumanTransfer, lead}
use schedule_appointments.Store.Tables.{Db}
use schedule_appointments.Store.Appointments
use schedule_appointments.Store.Clients
use schedule_appointments.Store.Conversations as ConversationStore
use schedule_appointments.Scheduling
use schedule_appointments.Scheduling.{Request, BookInput, validate_input}

-- `ToolContext`; the repositories that it can lack are all there.
pub record ToolContext : Type 0 where
  pub tenant_id : ℕ
  pub business_id : ℕ
  pub client_id : ℕ
  pub client_name : Text
  pub client_whatsapp : Text
  pub conversation_id : ℕ

-- The arguments of a call, with the clock, the ids that `uuid4` gives, and for a lead the texts that the
-- tool puts together.
pub record Booking : Type 0 where
  pub service_id : ℕ
  pub scheduled_at : ℕ
  pub professional_id : Option ℕ
  pub notes : Option Text
  pub now : ℕ
  pub new_client : ℕ
  pub new_appointment : ℕ

pub record Lead : Type 0 where
  pub name : Text
  pub phone : Text
  pub reason : Text
  pub snapshot : List (Sender × Text)
  pub now : ℕ
  pub new_transfer : ℕ

-- The calls that may write; `now` is the clock of the use case.
pub data Call : Type 0 where
  book : Booking → Call
  cancel : (now id : ℕ) → Option Text → Call
  reschedule : (now id new_start : ℕ) → Call
  capture : Lead → Call

-- What a call does to the session: nothing, writes that wait for a commit, a commit of all that was
-- written, or a rollback, where a use case raises inside its unit of work.
pub data Effect : Type 0 where
  nothing rolled_back : Effect
  wrote commits : Db → Effect

-- `async with self._uow` of a use case that the session's unit of work runs.
abbrev pub effect_of : {A : Type 0} → Result (A × Db) → Effect
effect_of (ok (_, db)) = commits db
effect_of (err _) = rolled_back

abbrev pub booking_input : ToolContext → Booking → BookInput
booking_input ctx b = record {
  business_id = ctx.business_id;
  service_id = b.service_id;
  scheduled_at = aware b.scheduled_at;
  client_name = ctx.client_name;
  client_whatsapp = ctx.client_whatsapp;
  professional_id = b.professional_id;
  notes = b.notes;
  client_email = none;
}

abbrev pub booking_request : ToolContext → Booking → Request
booking_request ctx b = record {
  tenant = ctx.tenant_id;
  now = b.now;
  client_id = b.new_client;
  appointment_id = b.new_appointment;
}

-- The input is checked before the unit of work is entered.
abbrev pub effect_of_booking : {A : Type 0} → Result ℕ → Result (A × Db) → Effect
effect_of_booking (ok _) r = effect_of r
effect_of_booking (err _) r = nothing

abbrev pub is_own : ToolContext → Option Appointment → Bool
is_own ctx none = false
is_own ctx (some a) = a.client_id == ctx.client_id

abbrev pub given_name : Text → Option Text
given_name name = if is_empty (strip name) then none else some (strip name)

abbrev pub with_contact : Lead → Option Client → Db → Db
with_contact l none db = db
with_contact l (some c) db =
    Clients.update
      (Client.record_contact_details (given_name l.name) (some (strip l.phone)) none l.now c) db

abbrev pub queue_lead : ToolContext → Lead → Option HumanTransfer → Db → Db
queue_lead ctx l (some t) db =
    ConversationStore.update_transfer (Conversation.refresh_lead (some l.reason) l.snapshot l.now t)
      db
queue_lead ctx l none db =
    ConversationStore.add_transfer
      (Conversation.create_transfer l.new_transfer l.now ctx.tenant_id ctx.business_id
        ctx.conversation_id ctx.client_id (some l.reason) l.snapshot lead)
      db

-- `_capture_lead`
unfoldable pub capture_lead : ToolContext → Lead → Db → Db
capture_lead ctx l db =
    let db' = with_contact l (Clients.get_by_id ctx.tenant_id ctx.client_id db) db in
    queue_lead ctx l (ConversationStore.get_pending_lead ctx.tenant_id ctx.conversation_id db') db'

-- `execute_tool`, which catches every exception.
unfoldable pub execute_tool : ToolContext → Call → Db → Effect
unfolding Scheduling.book_appointment Scheduling.reschedule_appointment
    Scheduling.cancel_appointment capture_lead
execute_tool ctx (book b) db =
    effect_of_booking (validate_input (booking_input ctx b))
      (Scheduling.book_appointment true (booking_request ctx b) (booking_input ctx b) db)
execute_tool ctx (cancel now id reason) db =
    if is_own ctx (Appointments.get_by_id ctx.tenant_id id db)
    then effect_of (Scheduling.cancel_appointment ctx.tenant_id now id reason db)
    else nothing
execute_tool ctx (reschedule now id new_start) db =
    if is_own ctx (Appointments.get_by_id ctx.tenant_id id db)
    then effect_of
        (Scheduling.reschedule_appointment true ctx.tenant_id now id (aware new_start) db)
    else nothing
execute_tool ctx (capture l) db =
    if is_empty (strip l.phone) then nothing else wrote (capture_lead ctx l db)

-- The session: what was committed last, and what its queries see.
pub record Session : Type 0 where
  pub committed : Db
  pub current : Db

abbrev pub after_effect : Effect → Session → Session
after_effect nothing s = s
after_effect rolled_back s = record s { current = s.committed }
after_effect (wrote db) s = record s { current = db }
after_effect (commits db) s = record { committed = db; current = db }

unfoldable pub run_tools : ToolContext → List Call → Session → Session
unfolding execute_tool
run_tools ctx [] s = s
run_tools ctx (c ∷ cs) s = run_tools ctx cs (after_effect (execute_tool ctx c s.current) s)

abbrev pub settles_after : Effect → (Db → Bool) → Db → Bool
settles_after nothing rest db = rest db
settles_after rolled_back rest db = false
settles_after (wrote d) rest db = rest d
settles_after (commits d) rest db = true

-- No call rolls the session back before one has committed.
unfoldable pub settles : ToolContext → List Call → Db → Bool
unfolding execute_tool
settles ctx [] db = true
settles ctx (c ∷ cs) db = settles_after (execute_tool ctx c db) (settles ctx cs) db
