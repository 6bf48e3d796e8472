-- ===== src/Enrollment/Grant.antt =====
-- src/application/membership/grant_membership.py
use schedule_appointments.Base.{
  ℕ, ◌+◌, ◌/◌, ◌%◌, ◌&&◌, not, Option, none, some, [], ltb, ◌==◌, is_none, or_else, if◌then◌else◌,
}
use schedule_appointments.Base.Text.{Text, strip, is_blank}
use schedule_appointments.Base.Clock.{DateTime, aware, naive, days, day}
use schedule_appointments.Base.Calendar.{ordinal, of_ordinal, years_later}
use schedule_appointments.Errors.{
  Result, ok, err, not_found, validation, conflict, value_error, no_plan, inactive,
  foreign_business, no_client, already_member, no_contact, naive_time, too_far,
}
use schedule_appointments.Client
use schedule_appointments.Client.{Client, whatsapp}
use schedule_appointments.Membership
use schedule_appointments.Membership.{Membership, MembershipPlan, BillingPeriod, Status}
use schedule_appointments.Store.Tables.{
  ◌>>=◌, ◌>>◌, Tx, pure, query, require, lift, modify, reject_if,
}
use schedule_appointments.Store.Clients
use schedule_appointments.Store.Plans
use schedule_appointments.Store.Memberships

-- `GrantMembershipInput`
pub record GrantInput : Type 0 where
  pub business_id : ℕ
  pub membership_plan_id : ℕ
  pub client_id : Option ℕ
  pub client_whatsapp : Option Text
  pub client_name : Option Text
  pub starts_at : Option DateTime
  pub notes : Option Text

-- `GrantMembershipOutput`
pub record GrantOutput : Type 0 where
  pub membership_id : ℕ
  pub client_id : ℕ
  pub membership_plan_id : ℕ
  pub plan_name : Text
  pub status : Status
  pub starts_at : Option ℕ
  pub ends_at : Option ℕ
  pub billing_period : BillingPeriod
  pub price_paid : ℕ

-- The tenant, the clock, and the ids that `uuid4` gives to what the request creates.
pub record Counter : Type 0 where
  pub tenant : ℕ
  pub now : ℕ
  pub client_id : ℕ
  pub membership_id : ℕ

-- `(text or "").strip()`
abbrev pub trimmed : Option Text → Text
trimmed o = strip (or_else o [])

-- `now.replace(year=now.year + 5)`, where `none` stands for the ValueError.
unfoldable pub in_five_years : ℕ → Option ℕ
in_five_years now = elim (years_later 5 (of_ordinal (now / day))) [
  | none ↦ none
  | some d ↦ some (days (ordinal d) + now % day)
]

abbrev pub check_far : Option ℕ → ℕ → Result (Unit {0})
check_far none t = err value_error
check_far (some far) t = if ltb far t then err (validation too_far) else ok tt

abbrev check_start : ℕ → Option DateTime → Result (Unit {0})
check_start now none = ok tt
check_start now (some (naive _)) = err (validation naive_time)
check_start now (some (aware t)) = check_far (in_five_years now) t

-- `_validate_input`
unfoldable pub validate_grant : ℕ → GrantInput → Result (Unit {0})
validate_grant now i =
    if is_none i.client_id && is_blank (trimmed i.client_whatsapp)
    then err (validation no_contact)
    else check_start now i.starts_at

abbrev pub client_draft : ℕ → Text → Text → Client.Draft
client_draft tenant number name = record {
  tenant_id = tenant;
  whatsapp_number = number;
  name = name;
  email = none;
  phone = none;
  notes = none;
  channel = whatsapp;
  external_id = none;
}

abbrev pub or_new_client : Counter → Text → Text → Option Client → Tx Client
or_new_client r number name (some c) = pure c
or_new_client r number name none = do
  c ← lift (Client.create r.client_id r.now (client_draft r.tenant number name))
  modify (Clients.add c)
  pure c

abbrev pub resolve_by : Counter → GrantInput → Option ℕ → Tx Client
resolve_by r i (some id) =
    query (Clients.get_by_id r.tenant id) >>= λ c. require c (not_found no_client)
resolve_by r i none = do
  found ← query (Clients.get_by_whatsapp r.tenant (trimmed i.client_whatsapp))
  or_new_client r (trimmed i.client_whatsapp) (trimmed i.client_name) found

-- `_resolve_client`
unfoldable pub resolve_client : Counter → GrantInput → Tx Client
resolve_client r i = resolve_by r i i.client_id

abbrev pub output_of : MembershipPlan → Membership → GrantOutput
output_of plan m = record {
  membership_id = m.id;
  client_id = m.client_id;
  membership_plan_id = plan.id;
  plan_name = plan.name;
  status = m.status;
  starts_at = m.starts_at;
  ends_at = m.ends_at;
  billing_period = m.billing_period;
  price_paid = m.price_paid;
}

abbrev pub grant_to : Counter → GrantInput → MembershipPlan → Client → Tx GrantOutput
grant_to r i plan c = do
  existing ← query (Memberships.get_current_for_client r.tenant c.id i.business_id)
  reject_if (not (is_none existing)) (conflict already_member)
  m ←
      lift (
        Membership.grant r.membership_id r.now r.tenant i.business_id c.id plan i.starts_at i.notes)
  Memberships.add r.tenant m
  pure (output_of plan m)

unfoldable pub grant_membership : Counter → GrantInput → Tx GrantOutput
unfolding resolve_client
grant_membership r i = do
  lift (validate_grant r.now i)
  plan ← require (← query (Plans.get_by_id r.tenant i.membership_plan_id)) (not_found no_plan)
  reject_if (not plan.is_active) (validation inactive)
  reject_if (not (plan.business_id == i.business_id)) (validation foreign_business)
  c ← resolve_client r i
  grant_to r i plan c
