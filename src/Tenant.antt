-- ===== src/Tenant.antt =====
-- src/domain/tenant/tenant.py: the entity Tenant, with the events that it records. A tenant without
-- a slug, which no code makes, is left out, and of an event its id and its time.
pub mod Lifecycle
use schedule_appointments.Base.{
  ℕ, ◌+◌, Bool, true, false, Option, none, some, List, [], ◌∷◌, ◌++◌, ltb, ◌==◌, not, ◌&&◌, ◌||◌,
  if◌then◌else◌,
}
use schedule_appointments.Base.Clock.{days}
use schedule_appointments.Base.Text.{Text, codes, strip, is_blank}
use schedule_appointments.Errors.{
  Result, ok, err, Method, business_rule, empty_name, bad_email, wrong_status,
}
use schedule_appointments.Slug.{Unicode}

pub data TenantStatus : Type 0 where
  pending_verification onboarding active trial_expired suspended cancelled : TenantStatus

pub data SubscriptionPlan : Type 0 where
  trial starter pro business enterprise : SubscriptionPlan

-- `a == b` on the two enumerations.
unfoldable pub same_status : TenantStatus → TenantStatus → Bool
same_status pending_verification pending_verification = true
same_status onboarding onboarding = true
same_status active active = true
same_status trial_expired trial_expired = true
same_status suspended suspended = true
same_status cancelled cancelled = true
same_status _ _ = false

unfoldable pub same_plan : SubscriptionPlan → SubscriptionPlan → Bool
same_plan trial trial = true
same_plan starter starter = true
same_plan pro pro = true
same_plan business business = true
same_plan enterprise enterprise = true
same_plan _ _ = false

-- The classes of src/domain/tenant/events.py, without the tenant's id that each carries.
pub data Event : Type 0 where
  tenant_registered : (tenant_name admin_email industry : Text) → Event
  tenant_verified tenant_onboarding_completed : Event
  tenant_plan_changed : (previous_plan new_plan : SubscriptionPlan) → Event
  tenant_status_changed : (previous_status new_status : TenantStatus) (reason : Option Text) → Event

pub record Tenant : Type 0 where
  pub id : ℕ
  pub name : Text
  pub slug : Text
  pub admin_email : Text
  pub industry : Text
  pub status : TenantStatus
  pub plan : SubscriptionPlan
  pub trial_ends_at : Option ℕ
  pub verified_at : Option ℕ
  pub onboarded_at : Option ℕ
  pub created_at : ℕ
  pub updated_at : ℕ
  pub pending_events : List Event

-- `record_event` and `pull_events` of src/domain/shared/entity.py
abbrev pub record_event : Event → Tenant → Tenant
record_event e t = record t { pending_events = t.pending_events ++ e ∷ [] }

unfoldable pub pull_events : Tenant → List Event × Tenant
pull_events t = (t.pending_events, record t { pending_events = [] })

-- `"@" in s`
abbrev pub has_at : Text → Bool
has_at [] = false
has_at (c ∷ s) = c == 64 || has_at s

-- The event has the name and the address as they were given.
unfoldable pub register :
    Unicode → (new_id now : ℕ) (name slug admin_email industry : Text) → Result Tenant
register u new_id now name slug admin_email industry =
    if is_blank name
    then err (business_rule empty_name)
    else if not (has_at admin_email)
    then err (business_rule bad_email)
    else ok (record {
      id = new_id;
      name = strip name;
      slug = slug;
      admin_email = strip (u.lower admin_email);
      industry = industry;
      status = pending_verification;
      plan = trial;
      trial_ends_at = some (now + days 14);
      verified_at = none;
      onboarded_at = none;
      created_at = now;
      updated_at = now;
      pending_events = tenant_registered name admin_email industry ∷ [];
    })

unfoldable pub verify : ℕ → Method Tenant
unfolding same_status
verify now t =
    if not (same_status t.status pending_verification)
    then (err (business_rule wrong_status), t)
    else (
      ok tt,
      record_event (tenant_status_changed t.status onboarding none) (
          record_event tenant_verified
            (record t { status = onboarding; verified_at = some now; updated_at = now })),
    )

unfoldable pub complete_onboarding : ℕ → Method Tenant
unfolding same_status
complete_onboarding now t =
    if not (same_status t.status onboarding) then (err (business_rule wrong_status), t) else (
      ok tt,
      record_event (tenant_status_changed t.status active none) (
          record_event tenant_onboarding_completed
            (record t { status = active; onboarded_at = some now; updated_at = now })),
    )

-- `_transition_status`
unfoldable pub transition_status : TenantStatus → Text → ℕ → Tenant → Tenant
unfolding same_status
transition_status new_status reason now t =
    if same_status new_status t.status
    then t
    else record_event (tenant_status_changed t.status new_status (some reason))
        (record t { status = new_status; updated_at = now })

-- A paid plan revives a tenant whose trial has expired.
abbrev pub revived : SubscriptionPlan → ℕ → Tenant → Tenant
revived new_plan now t =
    if same_status t.status trial_expired && not (same_plan new_plan trial)
    then transition_status active (codes "Paid plan selected") now t
    else t

unfoldable pub change_plan : SubscriptionPlan → ℕ → Tenant → Tenant
unfolding same_status same_plan transition_status
change_plan new_plan now t =
    if same_plan new_plan t.plan
    then t
    else record_event (tenant_plan_changed t.plan new_plan)
        (revived new_plan now (record t { plan = new_plan; updated_at = now }))

unfoldable pub suspend : Text → ℕ → Tenant → Tenant
unfolding transition_status
suspend reason now t = transition_status suspended reason now t

unfoldable pub cancel : Text → ℕ → Tenant → Tenant
unfolding transition_status
cancel reason now t = transition_status cancelled reason now t

-- `self.trial_ends_at and now < self.trial_ends_at`
abbrev pub still_on_trial : ℕ → Option ℕ → Bool
still_on_trial now none = false
still_on_trial now (some end) = ltb now end

unfoldable pub mark_trial_expired : ℕ → Tenant → Tenant
unfolding same_plan transition_status
mark_trial_expired now t =
    if not (same_plan t.plan trial)
    then t
    else if still_on_trial now t.trial_ends_at
    then t
    else transition_status trial_expired (codes "Trial period ended") now t

unfoldable pub is_active : Tenant → Bool
unfolding same_status
is_active t = same_status t.status active

unfoldable pub can_send_messages : Tenant → Bool
unfolding same_status
can_send_messages t = same_status t.status active || same_status t.status onboarding
