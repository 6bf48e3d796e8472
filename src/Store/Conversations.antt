-- ===== src/Store/Conversations.antt =====
-- src/infrastructure/persistence/repositories: conversation_repository.py and
-- human_transfer_repository.py
use schedule_appointments.Base.{
  ℕ, ◌-◌, Bool, true, false, ◌&&◌, not, Option, none, some, List, [], ◌∷◌, ◌++◌, ◌==◌, any, first,
  keep, length, drop, count, page,
}
use mathlib.Core.List.{reverse}
use schedule_appointments.Base.Sort.{sort_on, newest_on}
use schedule_appointments.Base.Text.{Text, text_eq}
use schedule_appointments.Conversation.{
  Message, Conversation, ConversationState, human_handover, HumanTransfer, TransferStatus, pending,
  resolved, TransferKind, lead, escalation,
}
use schedule_appointments.Store.Tables.{Db}
use schedule_appointments.Store.Rows.{merge}

-- `_ACTIVE_STATES`: all but the handover.
abbrev is_active : ConversationState → Bool
is_active human_handover = false
is_active _ = true

abbrev pub is_open_for : ℕ → ℕ → Conversation → Bool
is_open_for client business c =
    c.client_id == client
    && (c.business_id == business && (not c.is_escalated && is_active c.current_state))

unfoldable pub get_active_by_client_and_business : ℕ → ℕ → Db → Option Conversation
get_active_by_client_and_business client business db =
    newest_on (λ (c : Conversation). c.last_message_at)
      (keep (is_open_for client business) db.conversations)

unfoldable pub get_by_id : ℕ → Db → Option Conversation
get_by_id id db = first (λ (c : Conversation). c.id == id) db.conversations

unfoldable pub add : Conversation → Db → Db
add c db = record db { conversations = db.conversations ++ c ∷ [] }

unfoldable pub update : Conversation → Db → Db
update c db = record db { conversations = merge (λ (x : Conversation). x.id) c db.conversations }

unfoldable pub add_message : Message → Db → Db
add_message m db = record db { messages = db.messages ++ m ∷ [] }

abbrev same_text : Option Text → Text → Bool
same_text none t = false
same_text (some s) t = text_eq s t

abbrev pub is_delivery_of : Text → Message → Bool
is_delivery_of id m = same_text m.external_message_id id

unfoldable pub message_exists : Text → Db → Bool
message_exists id db = any (is_delivery_of id) db.messages

-- The last `limit` messages, the oldest first.
unfoldable pub get_recent_messages : ℕ → ℕ → Db → List Message
get_recent_messages conversation limit db =
    let rows =
      sort_on (λ (m : Message). m.created_at)
        (keep (λ (m : Message). m.conversation_id == conversation) db.messages) in
    drop (length rows - limit) rows

abbrev is_pending : TransferStatus → Bool
is_pending pending = true
is_pending resolved = false

abbrev is_lead : TransferKind → Bool
is_lead lead = true
is_lead escalation = false

unfoldable pub add_transfer : HumanTransfer → Db → Db
add_transfer t db = record db { transfers = db.transfers ++ t ∷ [] }

unfoldable pub update_transfer : HumanTransfer → Db → Db
update_transfer t db = record db { transfers = merge (λ (x : HumanTransfer). x.id) t db.transfers }

unfoldable pub get_transfer : ℕ → ℕ → Db → Option HumanTransfer
get_transfer tenant id db = first (λ t. t.id == id && t.tenant_id == tenant) db.transfers

unfoldable pub get_pending_lead : ℕ → ℕ → Db → Option HumanTransfer
get_pending_lead tenant conversation db =
    newest_on (λ (t : HumanTransfer). t.created_at)
      (keep
        (λ t.
          t.conversation_id == conversation
          && (t.tenant_id == tenant && (is_lead t.kind && is_pending t.status)))
        db.transfers)

-- `ORDER BY … DESC`
abbrev latest_first : {A : Type 0} → (A → ℕ) → List A → List A
latest_first key rows = reverse (sort_on key rows)

unfoldable pub list_by_business : (business offset limit : ℕ) → Db → List Conversation
list_by_business business offset limit db = page offset limit (
    latest_first (λ (c : Conversation). c.last_message_at)
      (keep (λ (c : Conversation). c.business_id == business) db.conversations))

unfoldable pub count_by_business : ℕ → Db → ℕ
count_by_business business db =
    count (λ (c : Conversation). c.business_id == business) db.conversations

abbrev same_transfer_status : TransferStatus → TransferStatus → Bool
same_transfer_status pending pending = true
same_transfer_status resolved resolved = true
same_transfer_status _ _ = false

abbrev has_transfer_status : Option TransferStatus → HumanTransfer → Bool
has_transfer_status none t = true
has_transfer_status (some s) t = same_transfer_status t.status s

abbrev is_listed_transfer : ℕ → ℕ → Option TransferStatus → HumanTransfer → Bool
is_listed_transfer tenant business status t =
    t.business_id == business && (t.tenant_id == tenant && has_transfer_status status t)

unfoldable pub list_transfers :
    (tenant business : ℕ) → Option TransferStatus → (offset limit : ℕ) → Db → List HumanTransfer
list_transfers tenant business status offset limit db = page offset limit (
    latest_first (λ (t : HumanTransfer). t.created_at)
      (keep (is_listed_transfer tenant business status) db.transfers))

unfoldable pub count_transfers : (tenant business : ℕ) → Option TransferStatus → Db → ℕ
count_transfers tenant business status db =
    count (is_listed_transfer tenant business status) db.transfers
