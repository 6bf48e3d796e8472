-- ===== src/Tenant/Lifecycle.antt =====
-- The history of a tenant: the events that its methods record, against what became of it.
use mathlib.Core.List.{append-nil, append_assoc}
use schedule_appointments.Base.{
  ℕ, ◌≡◌, refl, sym, ◌∙◌, ap, inl, inr, Bool, true, false, Option, none, some, List, [], ◌∷◌, ◌++◌,
  arith, not, ◌&&◌, Bool-cases, if◌then◌else◌,
}
use schedule_appointments.Base.Text.{Text, codes}
use schedule_appointments.Errors.{ok}
use schedule_appointments.Slug.{Unicode}
use schedule_appointments.Tenant
use schedule_appointments.Tenant.{
  Tenant, TenantStatus, SubscriptionPlan, Event, pending_verification, onboarding, active,
  trial_expired, suspended, cancelled, trial, tenant_verified, tenant_onboarding_completed,
  tenant_plan_changed, tenant_status_changed, same_status, same_plan,
}

-- What a subscriber knows of a tenant from its events.
pub record View : Type 0 where
  pub status : TenantStatus
  pub plan : SubscriptionPlan

-- A subscriber that reads the events in order, and refuses a change that does not begin where the
-- last one ended or that changes nothing.
unfoldable pub follow : Event → View → Option View
unfolding same_status same_plan
follow (tenant_status_changed p n r) v =
    if same_status p v.status && not (same_status p n) then some (record v { status = n }) else none
follow (tenant_plan_changed p n) v =
    if same_plan p v.plan && not (same_plan p n) then some (record v { plan = n }) else none
follow _ v = some v

abbrev pub follow_all : List Event → Option View → Option View
follow_all es none = none
follow_all [] (some v) = some v
follow_all (e ∷ es) (some v) = follow_all es (follow e v)

abbrev pub view_of : Tenant → View
view_of t = record { status = t.status; plan = t.plan }

pub data Call : Type 0 where
  verify complete_onboarding mark_trial_expired : ℕ → Call
  change_plan : SubscriptionPlan → ℕ → Call
  suspend cancel : Text → ℕ → Call
  pull_events : Call

-- A tenant, and the events that were pulled from it.
pub record History : Type 0 where
  pub published : List Event
  pub tenant : Tenant

abbrev pub perform : Call → History → History
perform (verify now) h = record h { tenant = (Tenant.verify now h.tenant).1 }
perform (complete_onboarding now) h = record h {
  tenant = (Tenant.complete_onboarding now h.tenant).1;
}
perform (mark_trial_expired now) h = record h { tenant = Tenant.mark_trial_expired now h.tenant }
perform (change_plan p now) h = record h { tenant = Tenant.change_plan p now h.tenant }
perform (suspend reason now) h = record h { tenant = Tenant.suspend reason now h.tenant }
perform (cancel reason now) h = record h { tenant = Tenant.cancel reason now h.tenant }
perform pull_events h = record {
  published = h.published ++ (Tenant.pull_events h.tenant).0;
  tenant = (Tenant.pull_events h.tenant).1;
}

-- What is left after calls whose exceptions are caught.
abbrev pub perform_all : List Call → History → History
perform_all [] h = h
perform_all (c ∷ cs) h = perform_all cs (perform c h)

-- A call records events that lead from the old state to the new one.
abbrev Recorded : Tenant → Tenant → Type 0
Recorded t t' =
    (es : List Event) × (t'.pending_events ≡ t.pending_events ++ es)
    × (follow_all es (some (view_of t)) ≡ some (view_of t'))

same_status_refl : (s : TenantStatus) → same_status s s ≡ true
unfolding same_status
same_status_refl s = ground arith

same_status_symm : (s r : TenantStatus) → same_status s r ≡ same_status r s
unfolding same_status
same_status_symm s r = ground arith

same_status_sound : (s r : TenantStatus) → same_status s r ≡ true → s ≡ r
unfolding same_status
same_status_sound s r h = ground arith

same_plan_refl : (p : SubscriptionPlan) → same_plan p p ≡ true
unfolding same_plan
same_plan_refl p = ground arith

same_plan_symm : (p q : SubscriptionPlan) → same_plan p q ≡ same_plan q p
unfolding same_plan
same_plan_symm p q = ground arith

follow-status :
    (p n : TenantStatus) (r : Option Text) (q : SubscriptionPlan)
    → same_status n p ≡ false
    → follow (tenant_status_changed p n r) (record { status = p; plan = q })
      ≡ some (record { status = n; plan = q })
unfolding follow
follow-status p n r q h = ground (arith, same_status_refl p, same_status_symm p n)

follow-plan :
    (p n : SubscriptionPlan) (s : TenantStatus)
    → same_plan n p ≡ false
    → follow (tenant_plan_changed p n) (record { status = s; plan = p })
      ≡ some (record { status = s; plan = n })
unfolding follow
follow-plan p n s h = ground (arith, same_plan_refl p, same_plan_symm p n)

transition_status-Recorded :
    (s : TenantStatus) (reason : Text) (now : ℕ) (t : Tenant)
    → Recorded t (Tenant.transition_status s reason now t)
unfolding Tenant.transition_status
transition_status-Recorded s reason now t = elim (Bool-cases (same_status s t.status)) [
  | inl e ↦ rw e ([], sym (append-nil t.pending_events), refl)
  | inr e ↦ rw e (
    tenant_status_changed t.status s (some reason) ∷ [],
    refl,
    ap (follow_all []) (follow-status t.status s (some reason) t.plan e),
  )
]

same_status-other :
    (s r n : TenantStatus)
    → same_status s r ≡ true
    → same_status n r ≡ false
    → same_status n s ≡ false
same_status-other s r n h k = rw (same_status_sound s r h) k

-- Two events, recorded one after the other.
append_two : (xs : List Event) (a b : Event) → (xs ++ a ∷ []) ++ b ∷ [] ≡ xs ++ a ∷ b ∷ []
append_two xs a b = append_assoc xs (a ∷ []) (b ∷ [])

verify-Recorded : (now : ℕ) (t : Tenant) → Recorded t (Tenant.verify now t).1
unfolding Tenant.verify follow same_status
verify-Recorded now t = elim (Bool-cases (same_status t.status pending_verification)) [
  | inl e ↦
      let other = same_status-other t.status pending_verification onboarding e refl in
      rw e (
        tenant_verified ∷ tenant_status_changed t.status onboarding none ∷ [],
        append_two t.pending_events tenant_verified
            (tenant_status_changed t.status onboarding none),
        ap (follow_all []) (follow-status t.status onboarding none t.plan other),
      )
  | inr e ↦ rw e ([], sym (append-nil t.pending_events), refl)
]

complete_onboarding-Recorded :
    (now : ℕ) (t : Tenant) → Recorded t (Tenant.complete_onboarding now t).1
unfolding Tenant.complete_onboarding follow same_status
complete_onboarding-Recorded now t = elim (Bool-cases (same_status t.status onboarding)) [
  | inl e ↦
      let other = same_status-other t.status onboarding active e refl in
      rw e (
        tenant_onboarding_completed ∷ tenant_status_changed t.status active none ∷ [],
        append_two t.pending_events tenant_onboarding_completed
            (tenant_status_changed t.status active none),
        ap (follow_all []) (follow-status t.status active none t.plan other),
      )
  | inr e ↦ rw e ([], sym (append-nil t.pending_events), refl)
]

mark_trial_expired-Recorded : (now : ℕ) (t : Tenant) → Recorded t (Tenant.mark_trial_expired now t)
unfolding Tenant.mark_trial_expired
mark_trial_expired-Recorded now t = elim (Bool-cases (same_plan t.plan trial)) [
  | inr e ↦ rw e ([], sym (append-nil t.pending_events), refl)
  | inl e ↦ elim (Bool-cases (Tenant.still_on_trial now t.trial_ends_at)) [
    | inl f ↦ rw (e, f) ([], sym (append-nil t.pending_events), refl)
    | inr f ↦
        rw (e, f) (transition_status-Recorded trial_expired (codes "Trial period ended") now t)
  ]
]

paid_plan : Option Text
paid_plan = some (codes "Paid plan selected")

expired-active :
    (s : TenantStatus) (b : Bool)
    → (same_status s trial_expired && b) ≡ true
    → same_status active s ≡ false
unfolding same_status
expired-active s b h = ground arith

change_plan-Recorded :
    (p : SubscriptionPlan) (now : ℕ) (t : Tenant) → Recorded t (Tenant.change_plan p now t)
unfolding Tenant.change_plan paid_plan Tenant.transition_status
change_plan-Recorded p now t = elim (Bool-cases (same_plan p t.plan)) [
  | inl e ↦ rw e ([], sym (append-nil t.pending_events), refl)
  | inr e ↦ elim (Bool-cases (same_status t.status trial_expired && not (same_plan p trial))) [
    | inr f ↦
        rw (e, f)
          (
            tenant_plan_changed t.plan p ∷ [],
            refl,
            ap (follow_all []) (follow-plan t.plan p t.status e),
          )
    | inl f ↦
        let other = expired-active t.status (not (same_plan p trial)) f in
        rw (e, f, other)
          (
            tenant_status_changed t.status active paid_plan ∷ tenant_plan_changed t.plan p ∷ [],
            append_two t.pending_events (tenant_status_changed t.status active paid_plan)
                (tenant_plan_changed t.plan p),
            ap (follow_all (tenant_plan_changed t.plan p ∷ []))
                  (follow-status t.status active paid_plan t.plan other)
                ∙ ap (follow_all []) (follow-plan t.plan p active e),
          )
  ]
]

follow_all-append :
    (es fs : List Event) (v : Option View)
    → follow_all (es ++ fs) v ≡ follow_all fs (follow_all es v)
follow_all-append es fs none = stuck es fs
  where
    stuck : (es fs : List Event) → follow_all (es ++ fs) none ≡ follow_all fs (follow_all es none)
    stuck es fs = refl
follow_all-append [] fs (some v) = refl
follow_all-append (e ∷ es) fs (some v) = follow_all-append es fs (follow e v)

-- All that was recorded of a tenant.
abbrev pub recorded : History → List Event
recorded h = h.published ++ h.tenant.pending_events

-- Following all the events from the view `v` gives what the tenant is.
abbrev pub Tells : View → History → Type 0
Tells v h = follow_all (recorded h) (some v) ≡ some (view_of h.tenant)

Recorded-Tells :
    (v : View) (h : History) (t : Tenant)
    → Recorded h.tenant t
    → Tells v h
    → Tells v (record h { tenant = t })
Recorded-Tells v h t (es, added, leads) told =
    ap (λ xs. follow_all (h.published ++ xs) (some v)) added
    ∙ (sym (ap (λ xs. follow_all xs (some v)) (append_assoc h.published h.tenant.pending_events es))
        ∙ (follow_all-append (recorded h) es (some v) ∙ (ap (follow_all es) told ∙ leads)))

perform-Tells : (v : View) (c : Call) (h : History) → Tells v h → Tells v (perform c h)
unfolding Tenant.suspend Tenant.cancel Tenant.pull_events
perform-Tells v (verify now) h =
    Recorded-Tells v h (Tenant.verify now h.tenant).1 (verify-Recorded now h.tenant)
perform-Tells v (complete_onboarding now) h =
    Recorded-Tells v h (Tenant.complete_onboarding now h.tenant).1
      (complete_onboarding-Recorded now h.tenant)
perform-Tells v (mark_trial_expired now) h =
    Recorded-Tells v h (Tenant.mark_trial_expired now h.tenant)
      (mark_trial_expired-Recorded now h.tenant)
perform-Tells v (change_plan p now) h =
    Recorded-Tells v h (Tenant.change_plan p now h.tenant) (change_plan-Recorded p now h.tenant)
perform-Tells v (suspend reason now) h =
    Recorded-Tells v h (Tenant.suspend reason now h.tenant)
      (transition_status-Recorded suspended reason now h.tenant)
perform-Tells v (cancel reason now) h =
    Recorded-Tells v h (Tenant.cancel reason now h.tenant)
      (transition_status-Recorded cancelled reason now h.tenant)
perform-Tells v pull_events h =
    λ told. ap (λ xs. follow_all xs (some v)) (append-nil (recorded h)) ∙ told

perform_all-Tells :
    (v : View) (cs : List Call) (h : History) → Tells v h → Tells v (perform_all cs h)
perform_all-Tells v [] h told = told
perform_all-Tells v (c ∷ cs) h told =
    perform_all-Tells v cs (perform c h) (perform-Tells v c h told)

register-Tells :
    (u : Unicode) (new_id now : ℕ) (name slug email industry : Text) (t : Tenant)
    → Tenant.register u new_id now name slug email industry ≡ ok t
    → Tells
        (record { status = pending_verification; plan = trial })
        (record { published = []; tenant = t })
unfolding Tenant.register follow
register-Tells u new_id now name slug email industry t r = ground arith

-- After any calls on a registered tenant, failed ones included and its events pulled at any moments,
-- a subscriber that reads all the events in order, beginning with a tenant on trial that waits for
-- its verification, meets no change that does not begin where the last one ended, nor one that
-- changes nothing, and ends with the tenant's status and plan.
pub registered-Tells :
    (u : Unicode) (new_id now : ℕ) (name slug email industry : Text) (t : Tenant) (cs : List Call)
    → Tenant.register u new_id now name slug email industry ≡ ok t
    → Tells
        (record { status = pending_verification; plan = trial })
        (perform_all cs (record { published = []; tenant = t }))
registered-Tells u new_id now name slug email industry t cs r =
    perform_all-Tells (record { status = pending_verification; plan = trial }) cs
      (record { published = []; tenant = t })
      (register-Tells u new_id now name slug email industry t r)
