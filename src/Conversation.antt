-- ===== src/Conversation.antt =====
-- src/domain/conversation: the entities Message, Conversation and HumanTransfer.
use schedule_appointments.Base.{
  ℕ, suc, Bool, true, false, Option, none, some, List, is_empty, if◌then◌else◌,
}
use schedule_appointments.Base.Text.{Text}
use schedule_appointments.Client.{Channel}

pub data Sender : Type 0 where
  client bot : Sender

-- `extra_data` is the text of its JSON.
pub record Message : Type 0 where
  pub id : ℕ
  pub tenant_id : ℕ
  pub conversation_id : ℕ
  pub sender : Sender
  pub message_type : Text
  pub content : Text
  pub external_message_id : Option Text
  pub extra_data : Option Text
  pub created_at : ℕ

unfoldable pub from_client :
    (new_id now tenant conversation : ℕ) → Text → Text → Option Text → Option Text → Message
from_client new_id now tenant conversation content message_type external_id extra = record {
  id = new_id;
  tenant_id = tenant;
  conversation_id = conversation;
  sender = client;
  message_type = message_type;
  content = content;
  external_message_id = external_id;
  extra_data = extra;
  created_at = now;
}

unfoldable pub from_bot : (new_id now tenant conversation : ℕ) → Text → Text → Option Text → Message
from_bot new_id now tenant conversation content message_type extra = record {
  id = new_id;
  tenant_id = tenant;
  conversation_id = conversation;
  sender = bot;
  message_type = message_type;
  content = content;
  external_message_id = none;
  extra_data = extra;
  created_at = now;
}

pub data ConversationState : Type 0 where
  idle extracting_entities confirming_inferred selecting_service : ConversationState
  collecting_dynamic_fields selecting_date selecting_time selecting_professional : ConversationState
  collecting_name confirming_appointment confirming_cancel : ConversationState
  confirming_reschedule appointment_booked appointment_cancelled : ConversationState
  human_handover waiting_for_more : ConversationState

-- The dict `collected_data` is left out.
pub record Conversation : Type 0 where
  pub id : ℕ
  pub tenant_id : ℕ
  pub business_id : ℕ
  pub client_id : ℕ
  pub channel : Channel
  pub current_state : ConversationState
  pub message_count : ℕ
  pub is_escalated : Bool
  pub escalated_at : Option ℕ
  pub last_message_at : ℕ
  pub created_at : ℕ
  pub updated_at : ℕ

unfoldable pub start : (new_id now tenant business client_id : ℕ) → Channel → Conversation
start new_id now tenant business client_id channel = record {
  id = new_id;
  tenant_id = tenant;
  business_id = business;
  client_id = client_id;
  channel = channel;
  current_state = idle;
  message_count = 0;
  is_escalated = false;
  escalated_at = none;
  last_message_at = now;
  created_at = now;
  updated_at = now;
}

unfoldable pub transition_to : ConversationState → ℕ → Conversation → Conversation
transition_to s now c = record c { current_state = s; updated_at = now }

unfoldable pub record_message : ℕ → Conversation → Conversation
record_message now c = record c {
  message_count = suc c.message_count;
  last_message_at = now;
  updated_at = now;
}

unfoldable pub escalate : ℕ → Conversation → Conversation
escalate now c = record c {
  is_escalated = true;
  escalated_at = some now;
  current_state = human_handover;
  updated_at = now;
}

pub data TransferStatus : Type 0 where
  pending resolved : TransferStatus

pub data TransferKind : Type 0 where
  escalation lead : TransferKind

pub record HumanTransfer : Type 0 where
  pub id : ℕ
  pub tenant_id : ℕ
  pub business_id : ℕ
  pub conversation_id : ℕ
  pub client_id : ℕ
  pub reason : Option Text
  pub context_snapshot : List (Sender × Text)
  pub status : TransferStatus
  pub kind : TransferKind
  pub resolved_at : Option ℕ
  pub resolved_by_id : Option ℕ
  pub created_at : ℕ
  pub updated_at : ℕ

unfoldable pub create_transfer :
    (new_id now tenant business conversation client_id : ℕ)
    → Option Text
    → List (Sender × Text)
    → TransferKind
    → HumanTransfer
create_transfer new_id now tenant business conversation client_id reason snapshot kind = record {
  id = new_id;
  tenant_id = tenant;
  business_id = business;
  conversation_id = conversation;
  client_id = client_id;
  reason = reason;
  context_snapshot = snapshot;
  status = pending;
  kind = kind;
  resolved_at = none;
  resolved_by_id = none;
  created_at = now;
  updated_at = now;
}

-- `if reason: self.reason = reason`
abbrev new_reason : Option Text → Option Text → Option Text
new_reason none old = old
new_reason (some r) old = if is_empty r then old else some r

unfoldable pub refresh_lead : Option Text → List (Sender × Text) → ℕ → HumanTransfer → HumanTransfer
refresh_lead reason snapshot now t = record t {
  reason = new_reason reason t.reason;
  context_snapshot = if is_empty snapshot then t.context_snapshot else snapshot;
  updated_at = now;
}

unfoldable pub resolve : ℕ → ℕ → HumanTransfer → HumanTransfer
resolve by now t = record t {
  status = resolved;
  resolved_at = some now;
  resolved_by_id = some by;
  updated_at = now;
}
