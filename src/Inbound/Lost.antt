-- ===== src/Inbound/Lost.antt =====
-- What is lost of a message that process_inbound_message.py answers, where a tool rolls the session back.
use schedule_appointments.Base.{◌≡◌, false}
use schedule_appointments.Base.Text.{Text}
use schedule_appointments.Client.{Client}
use schedule_appointments.Conversation
use schedule_appointments.Conversation.{Conversation}
use schedule_appointments.Store.Tables.{Db}
use schedule_appointments.Store.Ensures.{Ensures}
use schedule_appointments.Store.Conversations as ConversationStore
use schedule_appointments.Inbound.{Agent, Setup, Arrival, Inbound, prepare}
use schedule_appointments.Inbound.Delivery.{settles_for}

-- In answering a message, a use case that a tool calls raises inside its unit of work before one has
-- committed.
abbrev pub EarlyRollback : Agent → Setup → Arrival → Inbound → Db → Type 0
EarlyRollback agent s r i db =
    Ensures (prepare s r i db) (λ p d. settles_for agent s r i p d ≡ false)
