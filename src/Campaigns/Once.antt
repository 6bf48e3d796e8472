-- ===== src/Campaigns/Once.antt =====
-- Over any cycles of the campaigns, no message goes out twice.
use schedule_appointments.Base.{
  ℕ, ◌≡◌, ◌∙◌, inl, inr, Bool, true, false, ◌&&◌, Option, none, some, List, [], ◌∷◌, ◌++◌, ◌-◌,
  ◌==◌, any, keep, is_empty, if◌then◌else◌, All, All-map, Pairs, All-append_one, Pairs-append_one,
  Bool-cases, Option-cases, first,
}
use schedule_appointments.Base.Clock.{days}
use schedule_appointments.Client.{Client}
use schedule_appointments.Business.{Business}
use schedule_appointments.Membership.{Membership}
use schedule_appointments.Store.Tables.{Db}
use schedule_appointments.Campaigns
use schedule_appointments.Campaigns.{
  same_key, Claim, State, Answer, delivered, refused, raised, Network, Settings, Send, is_claim_of,
  claim_send, answered, message, post, deliver, send_campaign_message,
}
use schedule_appointments.Campaigns.Claimed.{
  Differ, IsClaimed, IsOnce, any-mark_sent, IsClaimed-later, claimed_now, unclaimed,
}

module _ (net : Network) (db : Db) (now : ℕ) where
  answered-IsOnce :
      (s : Send) (a : Answer) (st : State) → IsOnce st → IsOnce (answered now s a st).1
  answered-IsOnce s delivered st h = (
    All-map st.outbox (λ o k. any-mark_sent now s o.tenant_id o.dedupe_key st.claims ∙ k) h.0,
    h.1,
  )
  answered-IsOnce s refused st h = h
  answered-IsOnce s raised st h = h

  -- What a claim allows to be sent.
  abbrev Allows : Send → State → Type 0
  Allows s st =
      (any (is_claim_of s.tenant_id s.dedupe_key) st.claims ≡ true)
      × All (λ o. (s.tenant_id == o.tenant_id && same_key s.dedupe_key o.dedupe_key) ≡ false)
          st.outbox

  post-IsOnce :
      (s : Send) (c : Client) (b : Business) (st : State)
      → IsOnce st
      → Allows s st
      → IsOnce (post net now s c b st).1
  post-IsOnce s c b st h (claimed, fresh) =
      let m = message s c b in
      answered-IsOnce s (net st.outbox m) (record st { outbox = st.outbox ++ m ∷ [] })
        (
          All-append_one (IsClaimed st.claims) m st.outbox h.0 claimed,
          Pairs-append_one Differ m st.outbox h.1 fresh,
        )

  deliver-IsOnce :
      (s : Send) (c : Option Client) (b : Option Business) (st : State)
      → IsOnce st
      → Allows s st
      → IsOnce (deliver net now s c b st).1
  deliver-IsOnce s none b st h k = h
  deliver-IsOnce s (some c) none st h k = h
  deliver-IsOnce s (some c) (some b) st h k = elim (Bool-cases (Campaigns.has_no_number b)) [
    | inl e ↦ rw e h
    | inr e ↦ rw e (post-IsOnce s c b st h k)
  ]

  send_campaign_message-IsOnce :
      (s : Send) (st : State) → IsOnce st → IsOnce (send_campaign_message net db now s st).1
  unfolding send_campaign_message
  send_campaign_message-IsOnce s st h =
      elim (Bool-cases (any (is_claim_of s.tenant_id s.dedupe_key) st.claims)) [
        | inl e ↦ rw (claim_send, e) h
        | inr e ↦
            rw (claim_send, e)
              (deliver-IsOnce s (first (λ (c : Client). c.id == s.client_id) db.clients)
                (first (λ (b : Business). b.id == s.business_id) db.businesses)
                (record st { claims = st.claims ++ Campaigns.claim s ∷ [] })
                (
                  All-map st.outbox (λ o k. IsClaimed-later (Campaigns.claim s) st.claims o k) h.0,
                  h.1,
                )
                (
                  claimed_now s st.claims,
                  All-map st.outbox (λ o k. unclaimed st.claims o s.tenant_id s.dedupe_key e k) h.0,
                ))
      ]

  send_expiring-IsOnce :
      (settings : Settings) (ms : List Membership) (per : List ℕ) (st : State)
      → IsOnce st
      → IsOnce (Campaigns.send_expiring net db settings now ms per st).1
  unfolding Campaigns.send_expiring
  send_expiring-IsOnce settings [] per st h = h
  send_expiring-IsOnce settings (m ∷ ms) per st h =
      let s = Campaigns.expiring_send settings now m in
      let sent = send_campaign_message-IsOnce s st h in
      elim (Bool-cases (Campaigns.at_cap settings m.business_id per)) [
        | inl e ↦ rw (Campaigns.send_expiring, e) (send_expiring-IsOnce settings ms per st h)
        | inr e ↦ elim (Bool-cases (send_campaign_message net db now s st).0) [
          | inl f ↦
              rw (Campaigns.send_expiring, e, f)
                (send_expiring-IsOnce settings ms (m.business_id ∷ per)
                  (send_campaign_message net db now s st).1 sent)
          | inr f ↦
              rw (Campaigns.send_expiring, e, f)
                (send_expiring-IsOnce settings ms per (send_campaign_message net db now s st).1
                  sent)
        ]
      ]

  send_winback-IsOnce :
      (settings : Settings) (cs : List Client) (per : List ℕ) (st : State)
      → IsOnce st
      → IsOnce (Campaigns.send_winback net db settings now cs per st).1
  unfolding Campaigns.send_winback
  send_winback-IsOnce settings [] per st h = h
  send_winback-IsOnce settings (c ∷ cs) per st h =
      elim (Option-cases (Campaigns.business_for c db)) [
        | inl n ↦ rw (Campaigns.send_winback, n) (send_winback-IsOnce settings cs per st h)
        | inr (b, n) ↦
            let s = Campaigns.winback_send settings now c b in
            let sent = send_campaign_message-IsOnce s st h in
            elim (Bool-cases (Campaigns.at_cap settings b.id per)) [
              | inl e ↦ rw (Campaigns.send_winback, n, e) (send_winback-IsOnce settings cs per st h)
              | inr e ↦ elim (Bool-cases (send_campaign_message net db now s st).0) [
                | inl f ↦
                    rw (Campaigns.send_winback, n, e, f)
                      (send_winback-IsOnce settings cs (b.id ∷ per)
                        (send_campaign_message net db now s st).1 sent)
                | inr f ↦
                    rw (Campaigns.send_winback, n, e, f)
                      (send_winback-IsOnce settings cs per (send_campaign_message net db now s st).1
                        sent)
              ]
            ]
      ]

-- A cycle of the scheduler, with what it finds in the database.
pub record Cycle : Type 0 where
  pub net : Network
  pub db : Db
  pub settings : Settings
  pub now : ℕ
  pub later : ℕ

abbrev pub run_cycles : List Cycle → State → State
run_cycles [] st = st
run_cycles (c ∷ cs) st =
    run_cycles cs (Campaigns.run_campaigns_once c.net c.db c.settings c.now c.later st).1

run_campaigns_once-IsOnce :
    (c : Cycle) (st : State)
    → IsOnce st
    → IsOnce (Campaigns.run_campaigns_once c.net c.db c.settings c.now c.later st).1
unfolding Campaigns.run_campaigns_once Campaigns.run_expiring_memberships Campaigns.run_winback
run_campaigns_once-IsOnce c st h =
    won (is_empty c.settings.template_winback) _
      (expiring (is_empty c.settings.template_membership_expiring))
  where
    expiring :
        (b : Bool)
        → IsOnce
            (if b
              then (0, st)
              else Campaigns.run_expiring_memberships c.net c.db c.settings c.now st).1
    expiring true = h
    expiring false =
        send_expiring-IsOnce c.net c.db c.now c.settings
          (keep (Campaigns.is_expiring c.settings c.now) c.db.memberships) [] st h

    won :
        (b : Bool) (st : State)
        → IsOnce st
        → IsOnce (if b then (0, st) else Campaigns.run_winback c.net c.db c.settings c.later st).1
    won true st h = h
    won false st h =
        send_winback-IsOnce c.net c.db c.later c.settings
          (keep (Campaigns.is_inactive (c.later - days c.settings.inactive_days)) c.db.clients) []
          st h

run_cycles-IsOnce : (cs : List Cycle) (st : State) → IsOnce st → IsOnce (run_cycles cs st)
run_cycles-IsOnce [] st h = h
run_cycles-IsOnce (c ∷ cs) st h =
    run_cycles-IsOnce cs (Campaigns.run_campaigns_once c.net c.db c.settings c.now c.later st).1
      (run_campaigns_once-IsOnce c st h)

-- Over any cycles of the scheduler, at any times, over any contents of the database and with any
-- answers of the network, exceptions included, no two messages of a tenant go out under the same key:
-- about the same membership and the day on which it ends, or to the same client in the same week.
pub cycles-Differ :
    (cs : List Cycle) (claims : List Claim)
    → Pairs Differ (run_cycles cs (record { claims = claims; outbox = [] })).outbox
cycles-Differ cs claims =
    (run_cycles-IsOnce cs (record { claims = claims; outbox = [] }) (tt, tt)).1
