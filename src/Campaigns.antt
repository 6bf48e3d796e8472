-- ===== src/Campaigns.antt =====
-- src/infrastructure/scheduler/campaign_scheduler.py: one cycle of the campaigns. The client of
-- WhatsApp is an argument, which may answer anything to each message; an exception that it raises is
-- caught and logged by the loops, as if the message had not been sent. The database but for the table
-- of the claims is only read.
pub mod Claimed
pub mod Once
use schedule_appointments.Base.{
  ℕ, suc, ◌+◌, ◌-◌, ◌/◌, Bool, true, false, ◌&&◌, Option, none, some, List, [], ◌∷◌, ◌++◌, ◌==◌,
  ltb, leb, first, any, keep, count, map, is_empty, if◌then◌else◌,
}
use schedule_appointments.Base.Clock.{day, days}
use schedule_appointments.Base.Text.{Text, codes}
use schedule_appointments.Slug.{decimal}
use schedule_appointments.Client.{Client}
use schedule_appointments.Business.{Business}
use schedule_appointments.Membership.{Membership, Status, active}
use schedule_appointments.Store.Tables.{Db}
use schedule_appointments.Store.Memberships.{end_of}

-- The text of a key by its parts: the membership and the day on which it ends, or the client and the
-- week.
pub data DedupeKey : Type 0 where
  membership_expiring : (membership day : ℕ) → DedupeKey
  winback : (client week : ℕ) → DedupeKey

unfoldable pub same_key : DedupeKey → DedupeKey → Bool
same_key (membership_expiring a b) (membership_expiring c d) = a == c && b == d
same_key (winback a b) (winback c d) = a == c && b == d
same_key _ _ = false

-- `CampaignSendModel`, without its id: the tenant and the key are unique.
pub record Claim : Type 0 where
  pub tenant_id : ℕ
  pub business_id : ℕ
  pub client_id : ℕ
  pub dedupe_key : DedupeKey
  pub sent_at : Option ℕ

-- A call of `send_template`, with the key that it was claimed by.
pub record Outgoing : Type 0 where
  pub tenant_id : ℕ
  pub dedupe_key : DedupeKey
  pub to : Text
  pub template_name : Text
  pub body_params : List Text

pub record State : Type 0 where
  pub claims : List Claim
  pub outbox : List Outgoing

pub data Answer : Type 0 where
  delivered refused raised : Answer

-- What the network answers may depend on all that was sent before.
abbrev pub Network : Type 0
Network = List Outgoing → Outgoing → Answer

-- `campaign_*` and `whatsapp_template_*` of the settings; an empty name stands for no template. `week`
-- is `isocalendar` of a moment, as a number.
pub record Settings : Type 0 where
  pub expiring_days : ℕ
  pub inactive_days : ℕ
  pub daily_send_cap : ℕ
  pub template_membership_expiring : Text
  pub template_winback : Text
  pub week : ℕ → ℕ

-- The arguments of `_send_campaign_message`.
pub record Send : Type 0 where
  pub tenant_id : ℕ
  pub business_id : ℕ
  pub client_id : ℕ
  pub dedupe_key : DedupeKey
  pub template_name : Text
  pub body_params : Client → Business → List Text

abbrev pub is_claim_of : ℕ → DedupeKey → Claim → Bool
is_claim_of tenant key c = c.tenant_id == tenant && same_key c.dedupe_key key

abbrev pub claim : Send → Claim
claim s = record {
  tenant_id = s.tenant_id;
  business_id = s.business_id;
  client_id = s.client_id;
  dedupe_key = s.dedupe_key;
  sent_at = none;
}

-- `_claim_send`: `ON CONFLICT DO NOTHING`, and none where the key was claimed before.
unfoldable pub claim_send : Send → List Claim → Option (List Claim)
claim_send s claims =
    if any (is_claim_of s.tenant_id s.dedupe_key) claims
    then none
    else some (claims ++ claim s ∷ [])

abbrev pub mark_sent : (now : ℕ) → Send → List Claim → List Claim
mark_sent now s claims =
    map (λ c. if is_claim_of s.tenant_id s.dedupe_key c then record c { sent_at = some now } else c)
      claims

abbrev pub answered : (now : ℕ) → Send → Answer → State → Bool × State
answered now s delivered st = (true, record st { claims = mark_sent now s st.claims })
answered now s refused st = (false, st)
answered now s raised st = (false, st)

abbrev pub message : Send → Client → Business → Outgoing
message s c b = record {
  tenant_id = s.tenant_id;
  dedupe_key = s.dedupe_key;
  to = c.whatsapp_number;
  template_name = s.template_name;
  body_params = s.body_params c b;
}

abbrev pub post : Network → (now : ℕ) → Send → Client → Business → State → Bool × State
post net now s c b st =
    let m = message s c b in
    answered now s (net st.outbox m) (record st { outbox = st.outbox ++ m ∷ [] })

-- `not business.whatsapp_phone_number_id`
abbrev pub has_no_number : Business → Bool
has_no_number b = elim b.whatsapp_phone_number_id [ none ↦ true | some n ↦ is_empty n ]

abbrev pub deliver :
    Network → (now : ℕ) → Send → Option Client → Option Business → State → Bool × State
deliver net now s none b st = (false, st)
deliver net now s (some c) none st = (false, st)
deliver net now s (some c) (some b) st =
    if has_no_number b then (false, st) else post net now s c b st

abbrev pub when_claimed :
    Network → Db → (now : ℕ) → Send → Option (List Claim) → State → Bool × State
when_claimed net db now s none st = (false, st)
when_claimed net db now s (some claims) st =
    deliver net now s (first (λ (c : Client). c.id == s.client_id) db.clients)
      (first (λ (b : Business). b.id == s.business_id) db.businesses)
      (record st { claims = claims })

unfoldable pub send_campaign_message : Network → Db → (now : ℕ) → Send → State → Bool × State
unfolding claim_send
send_campaign_message net db now s st = when_claimed net db now s (claim_send s st.claims) st

-- The dict `per_business` of counts, as the list of the businesses that were counted.
abbrev pub at_cap : Settings → ℕ → List ℕ → Bool
at_cap settings business per_business =
    leb settings.daily_send_cap (count (λ b. b == business) per_business)

abbrev name_or_socio : Client → Text
name_or_socio c = if is_empty c.name then codes "socio" else c.name

abbrev pub expiring_send : Settings → (now : ℕ) → Membership → Send
expiring_send settings now m = record {
  tenant_id = m.tenant_id;
  business_id = m.business_id;
  client_id = m.client_id;
  dedupe_key = membership_expiring m.id (end_of m / day);
  template_name = settings.template_membership_expiring;
  body_params = λ c b. name_or_socio c ∷ b.name ∷ decimal ((end_of m - now) / day) ∷ [];
}

-- The loop of `_run_expiring_memberships`, with the number of messages sent.
unfoldable pub send_expiring :
    Network → Db → Settings → (now : ℕ) → List Membership → List ℕ → State → ℕ × State
unfolding send_campaign_message
send_expiring net db settings now [] per_business st = (0, st)
send_expiring net db settings now (m ∷ ms) per_business st =
    elim (at_cap settings m.business_id per_business) [
      | true ↦ send_expiring net db settings now ms per_business st
      | false ↦
          let r = send_campaign_message net db now (expiring_send settings now m) st in
          elim r.0 [
            | true ↦
                let rest =
                  send_expiring net db settings now ms (m.business_id ∷ per_business) r.1 in
                (suc rest.0, rest.1)
            | false ↦ send_expiring net db settings now ms per_business r.1
          ]
    ]

abbrev is_active_status : Status → Bool
is_active_status active = true
is_active_status _ = false

abbrev pub is_expiring : Settings → (now : ℕ) → Membership → Bool
is_expiring settings now m =
    is_active_status m.status
    && (ltb now (end_of m) && leb (end_of m) (now + days settings.expiring_days))

-- `_run_expiring_memberships`; the query names no order.
unfoldable pub run_expiring_memberships : Network → Db → Settings → (now : ℕ) → State → ℕ × State
unfolding send_expiring
run_expiring_memberships net db settings now st =
    send_expiring net db settings now (keep (is_expiring settings now) db.memberships) [] st

-- A client is inactive when the freshest thing known of it is older than the cutoff. A cutoff before
-- the first instant of datetime is that instant.
abbrev is_before : Option ℕ → ℕ → Bool → Bool
is_before none cutoff otherwise = otherwise
is_before (some t) cutoff otherwise = ltb t cutoff

abbrev pub is_inactive : (cutoff : ℕ) → Client → Bool
is_inactive cutoff c =
    c.is_active
    && is_before c.last_interaction_at cutoff
        (is_before c.last_appointment_at cutoff (ltb c.created_at cutoff))

-- `_business_for_client`
abbrev pub business_for : Client → Db → Option Business
business_for c db =
    first (λ (b : Business). b.tenant_id == c.tenant_id && b.is_active) db.businesses

abbrev pub winback_send : Settings → (now : ℕ) → Client → Business → Send
winback_send settings now c b = record {
  tenant_id = c.tenant_id;
  business_id = b.id;
  client_id = c.id;
  dedupe_key = winback c.id (settings.week now);
  template_name = settings.template_winback;
  body_params = λ c b. name_or_socio c ∷ b.name ∷ [];
}

-- The loop of `_run_winback`.
unfoldable pub send_winback :
    Network → Db → Settings → (now : ℕ) → List Client → List ℕ → State → ℕ × State
unfolding send_campaign_message
send_winback net db settings now [] per_business st = (0, st)
send_winback net db settings now (c ∷ cs) per_business st = elim (business_for c db) [
  | none ↦ send_winback net db settings now cs per_business st
  | some b ↦ elim (at_cap settings b.id per_business) [
    | true ↦ send_winback net db settings now cs per_business st
    | false ↦
        let r = send_campaign_message net db now (winback_send settings now c b) st in
        elim r.0 [
          | true ↦
              let rest = send_winback net db settings now cs (b.id ∷ per_business) r.1 in
              (suc rest.0, rest.1)
          | false ↦ send_winback net db settings now cs per_business r.1
        ]
  ]
]

-- `_run_winback`; the query names no order.
unfoldable pub run_winback : Network → Db → Settings → (now : ℕ) → State → ℕ × State
unfolding send_winback
run_winback net db settings now st =
    send_winback net db settings now
      (keep (is_inactive (now - days settings.inactive_days)) db.clients) [] st

-- The clock of each campaign is read on its own.
unfoldable pub run_campaigns_once :
    Network → Db → Settings → (now later : ℕ) → State → (ℕ × ℕ) × State
unfolding run_expiring_memberships run_winback
run_campaigns_once net db settings now later st =
    let expiring =
      if is_empty settings.template_membership_expiring
      then (0, st)
      else run_expiring_memberships net db settings now st in
    let won =
      if is_empty settings.template_winback
      then (0, expiring.1)
      else run_winback net db settings later expiring.1 in
    ((expiring.0, won.0), won.1)
