-- ===== src/Enrollment/Offer.antt =====
-- src/application/membership/create_membership_plan.py and update_membership_plan.py
use schedule_appointments.Base.{
  ℕ, Bool, true, false, Option, none, some, List, is_empty, if◌then◌else◌,
}
use schedule_appointments.Base.Int.{ℤ, pos, ltb_ℤ}
use schedule_appointments.Base.Text.{Text, is_blank}
use schedule_appointments.Errors.{
  Result, ok, err, not_found, validation, no_plan, empty_name, negative_price,
}
use schedule_appointments.Membership
use schedule_appointments.Membership.{MembershipPlan, BillingPeriod, PlanChanges}
use schedule_appointments.Store.Tables.{
  ◌>>=◌, ◌>>◌, Tx, pure, query, require, lift, modify, reject_if,
}
use schedule_appointments.Store.Plans

-- `CreateMembershipPlanInput`
pub record NewPlan : Type 0 where
  pub business_id : ℕ
  pub name : Text
  pub price : ℤ
  pub billing_period : BillingPeriod
  pub description : Option Text
  pub service_ids : List ℕ

-- A plan with its services, as both use cases answer; the create answer leaves `is_active` out.
pub record PlanOutput : Type 0 where
  pub membership_plan_id : ℕ
  pub name : Text
  pub price : ℕ
  pub billing_period : BillingPeriod
  pub is_active : Bool
  pub service_ids : List ℕ

abbrev plan_output : MembershipPlan → List ℕ → PlanOutput
plan_output p services = record {
  membership_plan_id = p.id;
  name = p.name;
  price = p.price;
  billing_period = p.billing_period;
  is_active = p.is_active;
  service_ids = services;
}

abbrev pub set_given : ℕ → ℕ → List ℕ → Tx (Unit {0})
set_given tenant plan ids =
    if is_empty ids then pure tt else modify (Plans.set_services tenant plan ids)

unfoldable pub create_membership_plan : (tenant now new_id : ℕ) → NewPlan → Tx PlanOutput
create_membership_plan tenant now new_id i = do
  reject_if (is_blank i.name) (validation empty_name)
  reject_if (ltb_ℤ i.price (pos 0)) (validation negative_price)
  p ← lift (
      Membership.create_plan new_id now tenant i.business_id i.name i.price i.billing_period
        i.description)
  Plans.add tenant p
  set_given tenant p.id i.service_ids
  pure (plan_output p i.service_ids)

-- `UpdateMembershipPlanInput`, but for the id.
pub record PlanPatch : Type 0 where
  pub changes : PlanChanges
  pub service_ids : Option (List ℕ)
  pub is_active : Option Bool

abbrev is_blank_name : Option Text → Bool
is_blank_name none = false
is_blank_name (some n) = is_blank n

abbrev is_negative : Option ℤ → Bool
is_negative none = false
is_negative (some p) = ltb_ℤ p (pos 0)

abbrev changed_plan : Result (Unit {0}) × MembershipPlan → Result MembershipPlan
changed_plan (ok _, p) = ok p
changed_plan (err e, p) = err e

abbrev switched : Option Bool → ℕ → MembershipPlan → MembershipPlan
switched none now p = p
switched (some true) now p = Membership.activate_plan now p
switched (some false) now p = Membership.deactivate_plan now p

-- An empty list stands for all services; no list leaves them alone.
abbrev set_patched : ℕ → ℕ → Option (List ℕ) → Tx (Unit {0})
set_patched tenant plan none = pure tt
set_patched tenant plan (some ids) = modify (Plans.set_services tenant plan ids)

unfoldable pub update_membership_plan : (tenant now id : ℕ) → PlanPatch → Tx PlanOutput
update_membership_plan tenant now id i = do
  reject_if (is_blank_name i.changes.name) (validation empty_name)
  reject_if (is_negative i.changes.price) (validation negative_price)
  p ← require (← query (Plans.get_by_id tenant id)) (not_found no_plan)
  edited ← lift (changed_plan (Membership.update_plan i.changes now p))
  let q = switched i.is_active now edited
  Plans.update tenant q
  set_patched tenant q.id i.service_ids
  services ← query (Plans.list_service_ids tenant q.id)
  pure (plan_output q services)
