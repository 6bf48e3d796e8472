-- ===== src/Tools/Kept.antt =====
-- The tools leave the messages alone, but for a rollback.
use schedule_appointments.Base.{
  ℕ, ◌≡◌, refl, ap, ◌∙◌, inl, inr, Bool, true, false, Option, none, some, List, [], ◌∷◌, is_empty,
  if◌then◌else◌, Bool-cases,
}
use schedule_appointments.Base.Text.{strip}
use schedule_appointments.Errors.{Result, ok, err}
use schedule_appointments.Client.{Client}
use schedule_appointments.Conversation.{Message, HumanTransfer}
use schedule_appointments.Store.Tables.{Db}
use schedule_appointments.Store.Ensures.{Ensures}
use schedule_appointments.Store.Appointments
use schedule_appointments.Store.Clients
use schedule_appointments.Store.Conversations as ConversationStore
use schedule_appointments.Scheduling.{validate_input}
use schedule_appointments.Tools.{
  ToolContext, Lead, Call, book, cancel, reschedule, capture, Effect, nothing, rolled_back, wrote,
  commits, effect_of, effect_of_booking, settles_after, Session, after_effect, execute_tool,
  run_tools, settles, capture_lead, with_contact, queue_lead, booking_input, booking_request,
  is_own,
}
use schedule_appointments.Tools.Cases.{
  SameMessages, book_appointment-SameMessages, reschedule_appointment-SameMessages,
  cancel_appointment-SameMessages,
}

capture_lead-SameMessages :
    (ctx : ToolContext) (l : Lead) (db : Db) → SameMessages db (capture_lead ctx l db)
unfolding capture_lead ConversationStore.update_transfer ConversationStore.add_transfer
    Clients.update
capture_lead-SameMessages ctx l db =
    queued (ConversationStore.get_pending_lead ctx.tenant_id ctx.conversation_id db')
    ∙ contact (Clients.get_by_id ctx.tenant_id ctx.client_id db)
  where
    db' : Db
    db' = with_contact l (Clients.get_by_id ctx.tenant_id ctx.client_id db) db

    contact : (o : Option Client) → SameMessages db (with_contact l o db)
    contact none = refl
    contact (some c) = refl

    queued : (o : Option HumanTransfer) → SameMessages db' (queue_lead ctx l o db')
    queued none = refl
    queued (some t) = refl

-- What a call writes keeps the messages.
abbrev pub Keeps : Db → Effect → Type 0
Keeps db nothing = Unit
Keeps db rolled_back = Unit
Keeps db (wrote d) = SameMessages db d
Keeps db (commits d) = SameMessages db d

effect_of-Keeps :
    {A : Type 0} (db : Db) (r : Result (A × Db))
    → Ensures r (λ _ d. SameMessages db d)
    → Keeps db (effect_of r)
effect_of-Keeps db (ok (_, d)) h = h
effect_of-Keeps db (err _) h = tt

if_own-Keeps : (b : Bool) (db : Db) (e : Effect) → Keeps db e → Keeps db (if b then e else nothing)
if_own-Keeps true db e h = h
if_own-Keeps false db e h = tt

effect_of_booking-Keeps :
    {A : Type 0} (v : Result ℕ) (db : Db) (r : Result (A × Db))
    → Ensures r (λ _ d. SameMessages db d)
    → Keeps db (effect_of_booking v r)
effect_of_booking-Keeps (ok _) db r h = effect_of-Keeps db r h
effect_of_booking-Keeps (err _) db r h = tt

execute_tool-Keeps : (ctx : ToolContext) (c : Call) (db : Db) → Keeps db (execute_tool ctx c db)
unfolding execute_tool
execute_tool-Keeps ctx (book b) db =
    effect_of_booking-Keeps (validate_input (booking_input ctx b)) db _
      (book_appointment-SameMessages true (booking_request ctx b) (booking_input ctx b) db)
execute_tool-Keeps ctx (cancel now id reason) db =
    if_own-Keeps (is_own ctx (Appointments.get_by_id ctx.tenant_id id db)) db _
      (effect_of-Keeps db _ (cancel_appointment-SameMessages ctx.tenant_id now id reason db))
execute_tool-Keeps ctx (reschedule now id new_start) db =
    if_own-Keeps (is_own ctx (Appointments.get_by_id ctx.tenant_id id db)) db _ (
      effect_of-Keeps db _
        (reschedule_appointment-SameMessages true ctx.tenant_id now id new_start db))
execute_tool-Keeps ctx (capture l) db = elim (Bool-cases (is_empty (strip l.phone))) [
  | inl e ↦ rw e tt
  | inr e ↦ rw e (capture_lead-SameMessages ctx l db)
]

-- Once the session has committed, no call changes its messages.
settled :
    (ctx : ToolContext) (cs : List Call) (s : Session) (ms : List Message)
    → s.committed.messages ≡ ms
    → s.current.messages ≡ ms
    → (run_tools ctx cs s).current.messages ≡ ms
unfolding run_tools
settled ctx [] s ms h k = k
settled ctx (c ∷ cs) s ms h k =
    let both = step (execute_tool ctx c s.current) (execute_tool-Keeps ctx c s.current) in
    settled ctx cs (after_effect (execute_tool ctx c s.current) s) ms both.0 both.1
  where
    step :
        (e : Effect)
        → Keeps s.current e
        → ((after_effect e s).committed.messages ≡ ms) × ((after_effect e s).current.messages ≡ ms)
    step nothing q = (h, k)
    step rolled_back q = (h, h)
    step (wrote d) q = (h, q ∙ k)
    step (commits d) q = (q ∙ k, q ∙ k)

-- The calls leave the messages as they met them, or, where one rolls the session back before one has
-- committed, as they were committed before.
pub run_tools-messages :
    (ctx : ToolContext) (cs : List Call) (s : Session)
    → (run_tools ctx cs s).current.messages
      ≡ (if settles ctx cs s.current then s.current.messages else s.committed.messages)
unfolding run_tools settles
run_tools-messages ctx [] s = refl
run_tools-messages ctx (c ∷ cs) s =
    step (λ t. run_tools-messages ctx cs t) (execute_tool ctx c s.current)
      (execute_tool-Keeps ctx c s.current)
  where
    step :
        ((t : Session)
          → (run_tools ctx cs t).current.messages
            ≡ (if settles ctx cs t.current then t.current.messages else t.committed.messages))
        → (e : Effect) → Keeps s.current e
        → (run_tools ctx cs (after_effect e s)).current.messages ≡ (
            if settles_after e (settles ctx cs) s.current
            then s.current.messages
            else s.committed.messages)
    step rest nothing q = rest s
    step rest rolled_back q = settled ctx cs _ s.committed.messages refl refl
    step rest (wrote d) q =
        rest (record s { current = d })
        ∙ ap (λ ms. if settles ctx cs d then ms else s.committed.messages) q
    step rest (commits d) q = settled ctx cs _ s.current.messages q q
