-- ===== src/Membership/Plan.antt =====
-- src/domain/membership/value_objects.py and membership_plan.py: billing periods and plans.
use schedule_appointments.Base.{ℕ, ◌+◌, Bool, true, false, Option, none, some, if◌then◌else◌}
use schedule_appointments.Base.Int.{ℤ, pos, pos_part, ltb_ℤ}
use schedule_appointments.Base.Text.{Text, strip, is_blank}
use schedule_appointments.Base.Clock.{days}
use schedule_appointments.Errors.{
  ◌>>◌, Result, ok, err, Method, modify, business_rule, empty_name, negative_price,
}

pub data BillingPeriod : Type 0 where
  monthly quarterly annual : BillingPeriod

abbrev pub period_days : BillingPeriod → ℕ
period_days monthly = 30
period_days quarterly = 90
period_days annual = 365

abbrev pub add_to : BillingPeriod → ℕ → ℕ
add_to p moment = moment + days (period_days p)

pub record MembershipPlan : Type 0 where
  pub id : ℕ
  pub tenant_id : ℕ
  pub business_id : ℕ
  pub name : Text
  pub description : Option Text
  pub price : ℕ
  pub billing_period : BillingPeriod
  pub is_active : Bool
  pub created_at : ℕ
  pub updated_at : ℕ

unfoldable pub create_plan :
    (new_id now tenant business : ℕ)
    → Text
    → ℤ
    → BillingPeriod
    → Option Text
    → Result MembershipPlan
create_plan new_id now tenant business name price period description =
    if is_blank name
    then err (business_rule empty_name)
    else if ltb_ℤ price (pos 0)
    then err (business_rule negative_price)
    else ok (record {
      id = new_id;
      tenant_id = tenant;
      business_id = business;
      name = strip name;
      description = description;
      price = pos_part price;
      billing_period = period;
      is_active = true;
      created_at = now;
      updated_at = now;
    })

-- The keyword arguments of `MembershipPlan.update`; `none` leaves a field alone.
pub record PlanChanges : Type 0 where
  pub name : Option Text
  pub description : Option Text
  pub price : Option ℤ
  pub billing_period : Option BillingPeriod

abbrev set_name : Option Text → Method MembershipPlan
set_name none p = (ok tt, p)
set_name (some n) p =
    if is_blank n then (err (business_rule empty_name), p) else (ok tt, record p { name = strip n })

abbrev set_price : Option ℤ → Method MembershipPlan
set_price none p = (ok tt, p)
set_price (some x) p =
    if ltb_ℤ x (pos 0)
    then (err (business_rule negative_price), p)
    else (ok tt, record p { price = pos_part x })

abbrev set_period : Option BillingPeriod → MembershipPlan → MembershipPlan
set_period none p = p
set_period (some b) p = record p { billing_period = b }

abbrev set_description : Option Text → MembershipPlan → MembershipPlan
set_description none p = p
set_description (some d) p = record p { description = some d }

unfoldable pub update_plan : PlanChanges → ℕ → Method MembershipPlan
update_plan c now = do
  set_name c.name
  set_price c.price
  modify (set_period c.billing_period)
  modify (set_description c.description)
  modify (λ p. record p { updated_at = now })

unfoldable pub deactivate_plan : ℕ → MembershipPlan → MembershipPlan
deactivate_plan now p = if p.is_active then record p { is_active = false; updated_at = now } else p

unfoldable pub activate_plan : ℕ → MembershipPlan → MembershipPlan
activate_plan now p = if p.is_active then p else record p { is_active = true; updated_at = now }
