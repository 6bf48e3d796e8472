-- ===== src/Examples/Inbound.antt =====
-- Two messages of a client, the first of which the agent hands over to a human.
use schedule_appointments.Base.{ℕ, ◌+◌, ◌≡◌, refl, true, false, some, none, is_none, [], ◌∷◌, map}
use schedule_appointments.Base.Text.{Text, codes}
use schedule_appointments.Errors.{Result, ok, err}
use schedule_appointments.Client
use schedule_appointments.Client.{whatsapp}
use schedule_appointments.Conversation
use schedule_appointments.Conversation.{Conversation}
use schedule_appointments.Store.Tables.{Db}
use schedule_appointments.Store.Clients
use schedule_appointments.Store.Conversations as ConversationStore
use schedule_appointments.Base.Sort.{newest_on}
use schedule_appointments.Inbound.{
  Agent, Setup, Arrival, Inbound, Outcome, process_message, prepare, duplicate,
}
use schedule_appointments.Inbound.Delivery.{delivered_once, always_replies}
use schedule_appointments.Tools.{book, capture, settles, run_tools, execute_tool, capture_lead}
use schedule_appointments.Scheduling.{book_appointment}
use schedule_appointments.Examples.Data.{empty_db, now, machine}

-- All that a message computes with: a test that names this unfolds it.
unfoldable chat : Unit {0}
unfolding machine settles run_tools execute_tool capture_lead prepare process_message
    Clients.get_by_id Clients.update Client.record_contact_details
    ConversationStore.get_pending_lead Conversation.create_transfer book_appointment
    ConversationStore.message_exists Clients.get_by_channel_id
    ConversationStore.get_active_by_client_and_business newest_on Conversation.record_message
    Conversation.start ConversationStore.update ConversationStore.add_message
    ConversationStore.add_transfer ConversationStore.add Conversation.from_client
    Conversation.from_bot Conversation.escalate Client.record_interaction
chat = tt

-- Hands over whatever it is asked.
abbrev shy : Agent
shy input db = record {
  reply = some (codes "Ya te contactan");
  escalation_triggered = true;
  escalation_reason = codes "reclamo";
  calls = [];
}

-- Takes down who is interested.
abbrev clerk : Agent
clerk input db = record {
  reply = some (codes "Anotado");
  escalation_triggered = false;
  escalation_reason = [];
  calls =
      capture (record {
        name = codes "Ana";
        phone = codes "700";
        reason = codes "yoga";
        snapshot = [];
        now = now;
        new_transfer = 9;
      })
      ∷ [];
}

-- Books a service that does not exist.
abbrev clumsy : Agent
clumsy input db = record {
  reply = some (codes "No pude");
  escalation_triggered = false;
  escalation_reason = [];
  calls =
      book (record {
        service_id = 99;
        scheduled_at = now + 1;
        professional_id = none;
        notes = none;
        now = now;
        new_client = 9;
        new_appointment = 9;
      })
      ∷ [];
}

abbrev setup : Setup
setup = record { knows_memberships = false; resume_minutes = 0 }

abbrev arrival : ℕ → Arrival
arrival n = record {
  tenant = 1;
  now = now + n;
  client_id = n;
  conversation_id = n;
  message_id = n;
  transfer_id = n;
  reply_id = n + 1;
}

abbrev message : Text → Inbound
message id = record {
  business_id = 10;
  external_message_id = id;
  from_number = codes "+591";
  sender_name = codes "Ana";
  content = codes "Hola";
  message_type = codes "text";
  extra_data = none;
  channel = whatsapp;
}

abbrev db_of : Result (Outcome × Db) → Db
db_of (ok (_, d)) = d
db_of (err _) = empty_db

abbrev outcome_of : Result (Outcome × Db) → Outcome
outcome_of (ok (o, _)) = o
outcome_of (err _) = duplicate

abbrev once : Result (Outcome × Db)
once = process_message shy setup (arrival 100) (message (codes "m1")) empty_db

abbrev twice : Result (Outcome × Db)
twice = process_message shy setup (arrival 200) (message (codes "m2")) (db_of once)

-- The conversation that was handed over is left, and the second message opens another.
conversations_after : map (λ (v : Conversation). v.id) (db_of twice).conversations ≡ 100 ∷ 200 ∷ []
unfolding chat
conversations_after = refl

abbrev noted : Result (Outcome × Db)
noted = process_message clerk setup (arrival 100) (message (codes "m1")) empty_db

delivered_once_example :
    process_message clerk setup (arrival 300) (message (codes "m1")) (db_of noted)
    ≡ ok (duplicate, db_of noted)
unfolding chat
delivered_once_example =
    delivered_once clerk setup (arrival 100) (message (codes "m1")) empty_db (db_of noted)
      (outcome_of noted) (arrival 300) (message (codes "m1")) refl refl refl

abbrev failed : Result (Outcome × Db)
failed = process_message clumsy setup (arrival 200) (message (codes "m2")) (db_of noted)

abbrev failed_again : Result (Outcome × Db)
failed_again = process_message clumsy setup (arrival 300) (message (codes "m2")) (db_of failed)

always_replies_example : is_none (outcome_of twice).reply ≡ false
unfolding chat
always_replies_example =
    always_replies shy setup (arrival 200) (message (codes "m2")) (db_of once) (db_of twice)
      (outcome_of twice) refl refl
