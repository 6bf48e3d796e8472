-- ===== src/Inbound/Delivery.antt =====
-- Which messages process_inbound_message.py answers: each delivery once, and each with a reply.
use schedule_appointments.Base.{
  ◌≡◌, refl, sym, subst, ap, ◌∙◌, inl, inr, Bool, true, false, ◌||◌, List, [], ◌∷◌, ◌++◌, arith,
  any, any-append, keep, is_none, All, All-map, All-keep_self, Bool-cases, Option-cases, not,
  if◌then◌else◌,
}
use schedule_appointments.Base.Sort.{newest_on, All-newest_on}
use schedule_appointments.Base.Text.{Text, text_eq_refl}
use schedule_appointments.Errors.{Result, ok, err}
use schedule_appointments.Client.{Client}
use schedule_appointments.Conversation
use schedule_appointments.Conversation.{Conversation, Message, record_message}
use schedule_appointments.Store.Tables.{Db}
use schedule_appointments.Store.Ensures.{Ensures, Ensures-bind, Ensures-if, Ensures-reject_if}
use schedule_appointments.Store.Conversations as ConversationStore
use schedule_appointments.Store.Conversations.{is_delivery_of, is_open_for}
use schedule_appointments.Tools.{Call, settles}
use schedule_appointments.Tools.Kept.{run_tools-messages}
use schedule_appointments.Inbound.{
  Agent, AgentAnswer, Setup, Arrival, Inbound, Outcome, process_message, handle, duplicate, answer,
  store_reply, prepare, Prepared, after_tools, tool_context, is_stored, should_escalate, resumed,
  open_conversation, identify_client, agent_input,
}

abbrev Delivered : Text → Db → Type 0
Delivered id d = any (is_delivery_of id) d.messages ≡ true

any_after :
    (p : Message → Bool) (xs : List Message) (m : Message)
    → (any p xs || p m) ≡ true
    → any p (xs ++ m ∷ []) ≡ true
any_after p xs m h = any-append p xs (m ∷ []) ∙ or_false (any p xs) (p m) h
  where
    or_false : (a b : Bool) → (a || b) ≡ true → (a || (b || false)) ≡ true
    or_false a b h = ground arith

-- Two facts about what one transaction leaves.
pub Ensures-both :
    {A : Type 0} (x : Result (A × Db)) (P Q : A → Db → Type 0)
    → Ensures x P
    → Ensures x Q
    → Ensures x (λ a d. P a d × Q a d)
Ensures-both (ok (a, d)) P Q h k = (h, k)
Ensures-both (err e) P Q h k = tt

Ensures-anything : {A : Type 0} (x : Result (A × Db)) → Ensures x (λ _ _. Unit {0})
Ensures-anything (ok (a, d)) = tt
Ensures-anything (err e) = tt

-- What the agent is told and what it does with it, once the message is stored.
abbrev pub calls_of : Agent → Setup → Arrival → Inbound → Prepared → Db → List Call
calls_of agent s r i p db =
    (agent (agent_input s r i p.client p.conversation p.history db) db).calls

abbrev pub settles_for : Agent → Setup → Arrival → Inbound → Prepared → Db → Bool
settles_for agent s r i p db =
    settles (tool_context r i p.client p.conversation) (calls_of agent s r i p db) db

-- In answering a message, no use case that a tool calls raises inside its unit of work before one has
-- committed.
abbrev pub NoEarlyRollback : Agent → Setup → Arrival → Inbound → Db → Type 0
NoEarlyRollback agent s r i db =
    Ensures (prepare s r i db) (λ p d. settles_for agent s r i p d ≡ true)

store_reply-Delivered :
    (r : Arrival) (i : Inbound) (c : Client) (v : Conversation) (history : List Message)
    (a : AgentAnswer) (db : Db) (id : Text)
    → Delivered id db
    → Ensures (store_reply r i c v history a db) (λ _ d. Delivered id d)
unfolding store_reply ConversationStore.add_transfer ConversationStore.add_message
    ConversationStore.update Conversation.from_bot
store_reply-Delivered r i c v history a db id h =
    Ensures-reject_if (not (is_stored v db)) _ _ db _ λ _. elim (Bool-cases (should_escalate a)) [
      | inl e ↦ rw e (any_after (is_delivery_of id) db.messages _ (rw h refl))
      | inr e ↦ rw e (any_after (is_delivery_of id) db.messages _ (rw h refl))
    ]

module _ (agent : Agent) (s : Setup) (r : Arrival) (i : Inbound) where
  pub after_tools-messages :
      (committed db : Db) (p : Prepared) (a : AgentAnswer)
      → (after_tools committed r i p.client p.conversation a db).messages ≡ (
          if settles (tool_context r i p.client p.conversation) a.calls db
          then db.messages
          else committed.messages)
  after_tools-messages committed db p a =
      run_tools-messages (tool_context r i p.client p.conversation) a.calls
        (record { committed = committed; current = db })

  answer-Delivered :
      (committed db : Db) (p : Prepared) (id : Text)
      → settles_for agent s r i p db ≡ true
      → Delivered id db
      → Ensures
          (answer agent s committed r i p.client p.history p.conversation db)
          (λ _ d. Delivered id d)
  unfolding answer ConversationStore.update
  answer-Delivered committed db p id keeps h =
      Ensures-if p.conversation.is_escalated _ _ db (λ _ d. Delivered id d) (λ _. h)
        λ _.
          let a = agent (agent_input s r i p.client p.conversation p.history db) db in
          let d = after_tools committed r i p.client p.conversation a db in
          let same : d.messages ≡ db.messages =
            after_tools-messages committed db p a ∙ rw keeps refl in
          store_reply-Delivered r i p.client p.conversation p.history a d id
            (ap (any (is_delivery_of id)) same ∙ h)

  -- The inbound message is stored before the agent is asked.
  prepare-Delivered :
      (db : Db) → Ensures (prepare s r i db) (λ _ d. Delivered i.external_message_id d)
  unfolding prepare ConversationStore.add_message Conversation.from_client
  prepare-Delivered db =
      Ensures-bind (identify_client r i) _ db (λ _ _. Unit {0}) _
        (Ensures-anything (identify_client r i db))
        λ c d _.
          Ensures-bind (open_conversation r i c) _ d (λ _ _. Unit {0}) _
            (Ensures-anything (open_conversation r i c d))
            λ v d' _. any_after (is_delivery_of i.external_message_id) d'.messages _ (
              or_true (any (is_delivery_of i.external_message_id) d'.messages) _
                (text_eq_refl i.external_message_id))
    where
      or_true : (a b : Bool) → b ≡ true → (a || b) ≡ true
      or_true a b h = ground arith

  handle-Delivered :
      (db : Db)
      → NoEarlyRollback agent s r i db
      → Ensures (handle agent s db r i db) (λ _ d. Delivered i.external_message_id d)
  handle-Delivered db keeps =
      Ensures-bind (prepare s r i) _ db
        (λ p d. (settles_for agent s r i p d ≡ true) × Delivered i.external_message_id d) _
        (Ensures-both (prepare s r i db) _ _ keeps (prepare-Delivered db))
        λ p d h. answer-Delivered db d p i.external_message_id h.0 h.1

  open-awake :
      (c : Client) (db : Db) → Ensures (open_conversation r i c db) (λ v _. v.is_escalated ≡ false)
  unfolding open_conversation ConversationStore.get_active_by_client_and_business Conversation.start
  open-awake c db =
      elim (Option-cases (newest_on (λ (v : Conversation). v.last_message_at) found)) [
        | inl e ↦ rw e refl
        | inr (v, e) ↦ rw e (
            All-newest_on (λ (x : Conversation). x.last_message_at) (λ x. x.is_escalated ≡ false)
              found awake e)
      ]
    where
      found : List Conversation
      found = keep (is_open_for c.id i.business_id) db.conversations

      awake : All (λ (x : Conversation). x.is_escalated ≡ false) found
      awake =
          All-map found (λ x h. ground arith)
            (All-keep_self (is_open_for c.id i.business_id) db.conversations)

  answer-replies :
      (committed db : Db) (p : Prepared)
      → p.conversation.is_escalated ≡ false
      → Ensures
          (answer agent s committed r i p.client p.history p.conversation db)
          (λ o _. is_none o.reply ≡ false)
  unfolding answer store_reply
  answer-replies committed db p e =
      Ensures-if p.conversation.is_escalated _ _ db (λ o _. is_none o.reply ≡ false)
        (λ f. absurd (true_not_false (sym f ∙ e)))
        λ _.
          let a = agent (agent_input s r i p.client p.conversation p.history db) db in
          let d = after_tools committed r i p.client p.conversation a db in
          Ensures-reject_if (not (is_stored p.conversation d)) _ _ d
            (λ o _. is_none o.reply ≡ false) λ _. refl
    where
      true_not_false : true ≡ false → ⊥
      true_not_false h = cc

  still_awake :
      (v : Conversation)
      → v.is_escalated ≡ false
      → (resumed s r.now (record_message r.now v)).is_escalated ≡ false
  unfolding resumed record_message
  still_awake v e = ground arith

  pub prepare-awake :
      (db : Db) → Ensures (prepare s r i db) (λ p _. p.conversation.is_escalated ≡ false)
  unfolding prepare
  prepare-awake db =
      Ensures-bind (identify_client r i) _ db (λ _ _. Unit {0}) _
        (Ensures-anything (identify_client r i db))
        λ c d _.
          Ensures-bind (open_conversation r i c) _ d (λ v _. v.is_escalated ≡ false) _
            (open-awake c d) λ v d' e. still_awake v e

  handle-replies : (db : Db) → Ensures (handle agent s db r i db) (λ o _. is_none o.reply ≡ false)
  handle-replies db =
      Ensures-bind (prepare s r i) _ db (λ p _. p.conversation.is_escalated ≡ false) _
        (prepare-awake db) λ p d e. answer-replies db d p e

  pub process-Ensures :
      (db : Db) (Q : Outcome → Db → Type 0)
      → (ConversationStore.message_exists i.external_message_id db ≡ true → Q duplicate db)
      → (ConversationStore.message_exists i.external_message_id db ≡ false
          → Ensures (handle agent s db r i db) Q)
      → Ensures (process_message agent s r i db) Q
  unfolding process_message
  process-Ensures db Q h k =
      elim (Bool-cases (ConversationStore.message_exists i.external_message_id db)) [
        | inl e ↦ rw e (h e)
        | inr e ↦ rw e (k e)
      ]

  -- A message that was processed, delivered again at any time, even with other contents, is answered
  -- as a duplicate: nothing is written and nothing is sent. It is assumed that, when it was processed,
  -- no use case that a tool called raised inside its unit of work before one had committed.
  pub delivered_once :
      (db d : Db) (o : Outcome) (r' : Arrival) (i' : Inbound)
      → NoEarlyRollback agent s r i db
      → process_message agent s r i db ≡ ok (o, d)
      → i'.external_message_id ≡ i.external_message_id
      → process_message agent s r' i' d ≡ ok (duplicate, d)
  unfolding process_message ConversationStore.message_exists
  delivered_once db d o r' i' keeps h same =
      let stored : Delivered i.external_message_id d =
        subst (λ x. Ensures x (λ _ d. Delivered i.external_message_id d)) h
          (process-Ensures db (λ _ d. Delivered i.external_message_id d) (λ e. e)
            (λ _. handle-Delivered db keeps)) in
      rw (ap (λ id. any (is_delivery_of id) d.messages) same ∙ stored) refl

  -- Every message that is processed and was not before is answered by a reply of the bot, also where
  -- the client's conversation was handed over to a human.
  pub always_replies :
      (db d : Db) (o : Outcome)
      → ConversationStore.message_exists i.external_message_id db ≡ false
      → process_message agent s r i db ≡ ok (o, d)
      → is_none o.reply ≡ false
  always_replies db d o new h =
      subst (λ x. Ensures x (λ o _. is_none o.reply ≡ false)) h
        (process-Ensures db (λ o _. is_none o.reply ≡ false)
          (λ e. absurd (true_not_false (sym e ∙ new))) (λ _. handle-replies db))
    where
      true_not_false : true ≡ false → ⊥
      true_not_false h = cc
