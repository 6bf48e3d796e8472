-- ===== src/Membership.antt =====
-- src/domain/membership: the entity Membership, its billing periods and its commands.
mod Plan
pub mod Lifecycle
pub mod Validity
unfoldable pub use Plan.*
use schedule_appointments.Base.{
  ℕ, suc, ◌+◌, ◌-◌, Bool, true, false, ◌&&◌, not, Option, none, some, ltb, leb, ◌==◌, if◌then◌else◌,
  or_else,
}
use schedule_appointments.Base.Text.{Text}
use schedule_appointments.Base.Int.{ℤ, pos}
use schedule_appointments.Base.Clock.{DateTime, aware, naive, ceil_days, days, days_from}
use schedule_appointments.Errors.{
  Result, ok, err, business_rule, wrong_status, renew_cancelled, renew_frozen, naive_time,
}

pub data Status : Type 0 where
  active frozen expired cancelled : Status

abbrev pub is_terminal : Status → Bool
is_terminal expired = true
is_terminal cancelled = true
is_terminal _ = false

abbrev pub is_active : Status → Bool
is_active active = true
is_active _ = false

abbrev pub is_frozen : Status → Bool
is_frozen frozen = true
is_frozen _ = false

abbrev pub is_cancelled : Status → Bool
is_cancelled cancelled = true
is_cancelled _ = false

pub record Membership : Type 0 where
  pub id : ℕ
  pub tenant_id : ℕ
  pub business_id : ℕ
  pub client_id : ℕ
  pub membership_plan_id : ℕ
  pub status : Status
  pub starts_at : Option ℕ
  pub ends_at : Option ℕ
  pub billing_period : BillingPeriod
  pub price_paid : ℕ
  pub frozen_at : Option ℕ
  pub frozen_days_used : ℕ
  pub renewal_count : ℕ
  pub cancelled_at : Option ℕ
  pub cancelled_reason : Option Text
  pub notes : Option Text
  pub created_at : ℕ
  pub updated_at : ℕ

granted : (new_id now tenant business client : ℕ) → MembershipPlan → ℕ → Option Text → Membership
granted new_id now tenant business client plan start notes = record {
  id = new_id;
  tenant_id = tenant;
  business_id = business;
  client_id = client;
  membership_plan_id = plan.id;
  status = active;
  starts_at = some start;
  ends_at = some (add_to plan.billing_period start);
  billing_period = plan.billing_period;
  price_paid = plan.price;
  frozen_at = none;
  frozen_days_used = 0;
  renewal_count = 0;
  cancelled_at = none;
  cancelled_reason = none;
  notes = notes;
  created_at = now;
  updated_at = now;
}

unfoldable pub grant :
    (new_id now tenant business client : ℕ)
    → MembershipPlan
    → Option DateTime
    → Option Text
    → Result Membership
unfolding granted
grant new_id now tenant business client plan none notes =
    ok (granted new_id now tenant business client plan now notes)
grant new_id now tenant business client plan (some (aware start)) notes =
    ok (granted new_id now tenant business client plan start notes)
grant new_id now tenant business client plan (some (naive _)) notes = err (business_rule naive_time)

-- `self.ends_at and moment >= self.ends_at`
abbrev pub has_ended : Option ℕ → ℕ → Bool
has_ended none moment = false
has_ended (some e) moment = leb e moment

unfoldable pub effective_status : ℕ → Membership → Status
effective_status moment m =
    if is_active m.status && has_ended m.ends_at moment then expired else m.status

abbrev has_started : Option ℕ → ℕ → Bool
has_started none moment = false
has_started (some s) moment = leb s moment

abbrev ends_after : Option ℕ → ℕ → Bool
ends_after none moment = false
ends_after (some e) moment = ltb moment e

unfoldable pub is_current : ℕ → Membership → Bool
unfolding effective_status
is_current moment m =
    if not (is_active (effective_status moment m))
    then false
    else has_started m.starts_at moment && ends_after m.ends_at moment

unfoldable pub days_remaining : ℕ → Membership → ℤ
days_remaining moment m = elim m.ends_at [
  | none ↦ pos 0
  | some e ↦ if leb e moment then pos 0 else days_from moment e
]

abbrev pub Outcome : Type 0
Outcome = Result (Unit {0}) × Membership

-- `self.ends_at if self.ends_at and self.ends_at > moment else moment`
abbrev pub renewal_base : Option ℕ → ℕ → ℕ
renewal_base none moment = moment
renewal_base (some e) moment = if ltb moment e then e else moment

unfoldable pub renew : Option ℕ → Option BillingPeriod → ℕ → Membership → Outcome
renew at period now m =
    if is_cancelled m.status
    then (err (business_rule renew_cancelled), m)
    else if is_frozen m.status
    then (err (business_rule renew_frozen), m)
    else let moment = or_else at now in
      let applied = or_else period m.billing_period in
      (
        ok tt,
        record m {
          ends_at = some (add_to applied (renewal_base m.ends_at moment));
          billing_period = applied;
          status = active;
          renewal_count = suc m.renewal_count;
          updated_at = moment;
        },
      )

unfoldable pub freeze : Option ℕ → ℕ → Membership → Outcome
freeze at now m =
    if not (is_active m.status)
    then (err (business_rule wrong_status), m)
    else let moment = or_else at now in
      (ok tt, record m { status = frozen; frozen_at = some moment; updated_at = moment })

-- The days since the freeze, rounded up, and 0 where the freeze lies ahead.
abbrev pub frozen_days : Option ℕ → ℕ → ℕ
frozen_days none moment = 0
frozen_days (some f) moment = ceil_days (moment - f)

abbrev pub extended : Option ℕ → ℕ → Option ℕ
extended none n = none
extended (some e) n = if n == 0 then some e else some (e + days n)

unfoldable pub unfreeze : Option ℕ → ℕ → Membership → Outcome
unfreeze at now m =
    if not (is_frozen m.status)
    then (err (business_rule wrong_status), m)
    else let moment = or_else at now in
      let n = frozen_days m.frozen_at moment in
      (
        ok tt,
        record m {
          ends_at = extended m.ends_at n;
          frozen_days_used = m.frozen_days_used + n;
          frozen_at = none;
          status = active;
          updated_at = moment;
        },
      )

unfoldable pub expire_if_due : ℕ → Membership → Bool × Membership
expire_if_due moment m =
    if is_active m.status && has_ended m.ends_at moment
    then (true, record m { status = expired; updated_at = moment })
    else (false, m)

unfoldable pub cancel : Option ℕ → Option Text → ℕ → Membership → Membership
cancel at reason now m =
    if is_cancelled m.status
    then m
    else let moment = or_else at now in
      record m {
        status = cancelled;
        cancelled_at = some moment;
        cancelled_reason = reason;
        updated_at = moment;
      }
