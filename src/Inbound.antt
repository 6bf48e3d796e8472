-- ===== src/Inbound.antt =====
-- src/application/conversation/process_inbound_message.py
-- The agent of booking_agent.py is a parameter: it runs a language model, which chooses the calls of the
-- tools (Tools). The alert to the owner and the delivery of the reply are network calls and left out.
pub mod Delivery
pub mod Lost
use schedule_appointments.Base.{
  ℕ, ◌+◌, ◌-◌, Bool, false, ◌&&◌, ◌||◌, not, Option, none, some, List, [], map, leb, ◌==◌, is_empty,
  any, length, drop, if◌then◌else◌,
}
use schedule_appointments.Base.Text.{Text, codes, text_eq}
use schedule_appointments.Errors.{ok, integrity_error}
use schedule_appointments.Appointment.{minutes}
use schedule_appointments.Client
use schedule_appointments.Client.{Client, Channel, is_social, is_whatsapp}
use schedule_appointments.Conversation
use schedule_appointments.Conversation.{
  Conversation, Message, Sender, HumanTransfer, idle, escalation, transition_to, record_message,
  escalate,
}
use schedule_appointments.Membership.{MembershipPlan}
use schedule_appointments.Store.Tables.{◌>>=◌, ◌>>◌, Db, Tx, pure, query, lift, modify, reject_if}
use schedule_appointments.Store.Clients
use schedule_appointments.Store.Conversations as ConversationStore
use schedule_appointments.Store.Plans
use schedule_appointments.Tools.{ToolContext, Call, run_tools}
use schedule_appointments.Enrollment.Consult.{Standing, get_client_membership}

-- `InboundMessage`, with the business that it was sent to.
pub record Inbound : Type 0 where
  pub business_id : ℕ
  pub external_message_id : Text
  pub from_number : Text
  pub sender_name : Text
  pub content : Text
  pub message_type : Text
  pub extra_data : Option Text
  pub channel : Channel

-- The tenant, the clock, and the ids that `uuid4` gives to what the message creates.
pub record Arrival : Type 0 where
  pub tenant : ℕ
  pub now : ℕ
  pub client_id : ℕ
  pub conversation_id : ℕ
  pub message_id : ℕ
  pub transfer_id : ℕ
  pub reply_id : ℕ

-- How the use case is built: whether it has the repositories of memberships, and the setting
-- `escalation_auto_resume_minutes`, 0 where it is negative.
pub record Setup : Type 0 where
  pub knows_memberships : Bool
  pub resume_minutes : ℕ

-- What the agent is told.
pub record AgentInput : Type 0 where
  pub client : Client
  pub conversation_id : ℕ
  pub history : List Message
  pub user_message : Text
  pub membership : Option Standing
  pub plans : List MembershipPlan
  pub tools : ToolContext

-- The reply, `none` where the agent raises; what its tools said of an escalation; and the calls of its
-- tools that may write, one after another.
pub record AgentAnswer : Type 0 where
  pub reply : Option Text
  pub escalation_triggered : Bool
  pub escalation_reason : Text
  pub calls : List Call

abbrev pub Agent : Type 0
Agent = AgentInput → Db → AgentAnswer

-- The conversation and the text that is sent; no conversation has the id 0, which a duplicate gets.
pub record Outcome : Type 0 where
  pub conversation_id : ℕ
  pub reply : Option Text

-- `_FALLBACK_REPLY`
unfoldable pub fallback_reply : Text
fallback_reply =
    codes
      "Lo siento, en este momento no puedo procesar tu solicitud. Por favor, contáctanos directamente para ayudarte con tu cita."

unfoldable pub max_iterations : Text
max_iterations = codes "Límite de iteraciones del agente alcanzado"

abbrev pub client_draft : ℕ → Inbound → Client.Draft
client_draft tenant i = record {
  tenant_id = tenant;
  whatsapp_number = if is_whatsapp i.channel then i.from_number else [];
  name = i.sender_name;
  email = none;
  phone = none;
  notes = none;
  channel = i.channel;
  external_id = some i.from_number;
}

abbrev create_or_touch : Arrival → Inbound → Option Client → Tx Client
create_or_touch r i none = do
  c ← lift (Client.create r.client_id r.now (client_draft r.tenant i))
  modify (Clients.add c)
  pure c
create_or_touch r i (some c) = do
  let c' = Client.record_interaction none r.now c
  modify (Clients.update c')
  pure c'

unfoldable pub identify_client : Arrival → Inbound → Tx Client
identify_client r i = do
  found ← query (Clients.get_by_channel_id r.tenant i.channel i.from_number)
  create_or_touch r i found

abbrev start_or_go_on : Arrival → Inbound → Client → Option Conversation → Tx Conversation
start_or_go_on r i c (some v) = pure v
start_or_go_on r i c none = do
  let v = Conversation.start r.conversation_id r.now r.tenant i.business_id c.id i.channel
  modify (ConversationStore.add v)
  pure v

unfoldable pub open_conversation : Arrival → Inbound → Client → Tx Conversation
open_conversation r i c = do
  found ← query (ConversationStore.get_active_by_client_and_business c.id i.business_id)
  start_or_go_on r i c found

-- `_should_resume`
unfoldable pub should_resume : Setup → ℕ → Conversation → Bool
should_resume s now v = elim v.escalated_at [
  | none ↦ false
  | some t ↦ not (s.resume_minutes == 0) && leb (t + minutes s.resume_minutes) now
]

-- An escalated conversation whose handover nobody took is given back to the bot.
unfoldable pub resumed : Setup → ℕ → Conversation → Conversation
unfolding should_resume transition_to
resumed s now v =
    if v.is_escalated && should_resume s now v
    then transition_to idle now (record v { is_escalated = false; escalated_at = none })
    else v

abbrev inbound_message : Arrival → Inbound → Conversation → Message
inbound_message r i v =
    Conversation.from_client r.message_id r.now r.tenant v.id i.content i.message_type
      (some i.external_message_id) i.extra_data

-- `_load_membership` and `_load_plans`
abbrev pub load_membership : Setup → Arrival → Inbound → Client → Db → Option Standing
load_membership s r i c db =
    if is_social i.channel || not s.knows_memberships
    then none
    else some (get_client_membership r.tenant r.now c.id i.business_id db)

abbrev pub load_plans : Setup → Arrival → Inbound → Db → List MembershipPlan
load_plans s r i db =
    if s.knows_memberships then Plans.list_by_business r.tenant i.business_id false 0 50 db else []

abbrev pub tool_context : Arrival → Inbound → Client → Conversation → ToolContext
tool_context r i c v = record {
  tenant_id = r.tenant;
  business_id = i.business_id;
  client_id = c.id;
  client_name = c.name;
  client_whatsapp = if is_empty c.whatsapp_number then c.external_id else c.whatsapp_number;
  conversation_id = v.id;
}

abbrev pub agent_input :
    Setup → Arrival → Inbound → Client → Conversation → List Message → Db → AgentInput
agent_input s r i c v history db = record {
  client = c;
  conversation_id = v.id;
  history = history;
  user_message = i.content;
  membership = load_membership s r i c db;
  plans = load_plans s r i db;
  tools = tool_context r i c v;
}

abbrev pub reply_or_fallback : Option Text → Text
reply_or_fallback none = fallback_reply
reply_or_fallback (some t) = t

abbrev snapshot_line : Message → Sender × Text
snapshot_line m = (m.sender, m.content)

abbrev transfer_for :
    Arrival → Inbound → Client → Conversation → List Message → Text → HumanTransfer
transfer_for r i c v history reason =
    Conversation.create_transfer r.transfer_id r.now r.tenant i.business_id v.id c.id
      (some (if is_empty reason then max_iterations else reason))
      (map snapshot_line (drop (length history - 5) history)) escalation

abbrev pub should_escalate : AgentAnswer → Bool
should_escalate a = a.escalation_triggered || text_eq (reply_or_fallback a.reply) fallback_reply

-- The rows of messages and handovers refer to the conversation.
abbrev pub is_stored : Conversation → Db → Bool
is_stored v db = any (λ (x : Conversation). x.id == v.id) db.conversations

-- The database after the tools of the agent.
abbrev pub after_tools : Db → Arrival → Inbound → Client → Conversation → AgentAnswer → Db → Db
after_tools committed r i c v a db =
    (run_tools (tool_context r i c v) a.calls
      (record { committed = committed; current = db })).current

-- Escalate, store the reply, and write the conversation, in the database that the tools leave.
unfoldable pub store_reply :
    Arrival → Inbound → Client → Conversation → List Message → AgentAnswer → Tx Outcome
store_reply r i c v history a = do
  let v' = if should_escalate a then escalate r.now v else v
  let handed_over =
      if should_escalate a
      then ConversationStore.add_transfer (transfer_for r i c v' history a.escalation_reason)
      else λ db. db
  reject_if (not (← query (is_stored v))) integrity_error
  modify handed_over
  modify (
      ConversationStore.add_message (
        Conversation.from_bot r.reply_id r.now r.tenant v.id (reply_or_fallback a.reply)
          (codes "text") none))
  modify (ConversationStore.update (record_message r.now v'))
  pure (record { conversation_id = v.id; reply = some (reply_or_fallback a.reply) })

-- The bot stays quiet in an escalated conversation.
unfoldable pub answer :
    Agent → Setup → Db → Arrival → Inbound → Client → List Message → Conversation → Tx Outcome
unfolding store_reply
answer agent s committed r i c history v =
    if v.is_escalated
    then ((modify (ConversationStore.update v))
        >> pure (record { conversation_id = v.id; reply = none }))
    else (query (λ db. agent (agent_input s r i c v history db) db) >>= λ a.
        modify (after_tools committed r i c v a) >> store_reply r i c v history a)

-- What is there when the agent is asked: the inbound message is stored and not yet committed.
pub record Prepared : Type 0 where
  pub client : Client
  pub conversation : Conversation
  pub history : List Message

unfoldable pub prepare : Setup → Arrival → Inbound → Tx Prepared
unfolding identify_client open_conversation resumed
prepare s r i = do
  c ← identify_client r i
  v ← open_conversation r i c
  history ← query (ConversationStore.get_recent_messages v.id 20)
  modify (ConversationStore.add_message (inbound_message r i v))
  pure (record {
    client = c;
    conversation = resumed s r.now (record_message r.now v);
    history = history;
  })

-- `committed` is the database that a rollback gives back.
abbrev pub handle : Agent → Setup → Db → Arrival → Inbound → Tx Outcome
handle agent s committed r i = do
  p ← prepare s r i
  answer agent s committed r i p.client p.history p.conversation

abbrev pub duplicate : Outcome
duplicate = record { conversation_id = 0; reply = none }

unfoldable pub process_message : Agent → Setup → Arrival → Inbound → Tx Outcome
unfolding prepare answer
process_message agent s r i db =
    if ConversationStore.message_exists i.external_message_id db
    then ok (duplicate, db)
    else handle agent s db r i db
