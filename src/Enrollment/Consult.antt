-- ===== src/Enrollment/Consult.antt =====
-- src/application/membership/get_client_membership.py
pub mod Entitled
use schedule_appointments.Base.{
  ℕ, Bool, true, false, Option, none, some, List, [], head, if◌then◌else◌,
}
use schedule_appointments.Base.Int.{ℤ}
use schedule_appointments.Base.Text.{Text}
use schedule_appointments.Membership
use schedule_appointments.Membership.{
  Membership, MembershipPlan, BillingPeriod, Status, active, frozen, expired, cancelled,
}
use schedule_appointments.Store.Tables.{Db}
use schedule_appointments.Store.Plans
use schedule_appointments.Store.Memberships

-- The sentence that `_warning_for` makes of a status and an end.
pub data Warning : Type 0 where
  ended_on : Option ℕ → Warning
  is_frozen was_cancelled not_yet no_record : Warning

-- `GetClientMembershipOutput`
pub record Standing : Type 0 where
  pub has_membership : Bool
  pub membership_id : Option ℕ
  pub plan_name : Option Text
  pub status : Option Status
  pub billing_period : Option BillingPeriod
  pub price_paid : Option ℕ
  pub starts_at : Option ℕ
  pub ends_at : Option ℕ
  pub days_remaining : Option ℤ
  pub is_current : Bool
  pub included_service_ids : List ℕ
  pub warning : Option Warning

unfoldable pub warning_for : Status → Option ℕ → Warning
warning_for expired e = ended_on e
warning_for frozen e = is_frozen
warning_for cancelled e = was_cancelled
warning_for active e = not_yet

abbrev name_of : Option MembershipPlan → Option Text
name_of none = none
name_of (some p) = some p.name

abbrev no_membership : Standing
no_membership = record {
  has_membership = false;
  membership_id = none;
  plan_name = none;
  status = none;
  billing_period = none;
  price_paid = none;
  starts_at = none;
  ends_at = none;
  days_remaining = none;
  is_current = false;
  included_service_ids = [];
  warning = some no_record;
}

abbrev pub standing_of : ℕ → ℕ → Db → Membership → Standing
standing_of tenant now db m =
    let current = Membership.is_current now m in
    let status = Membership.effective_status now m in
    record {
      has_membership = true;
      membership_id = some m.id;
      plan_name = name_of (Plans.get_by_id tenant m.membership_plan_id db);
      status = some status;
      billing_period = some m.billing_period;
      price_paid = some m.price_paid;
      starts_at = m.starts_at;
      ends_at = m.ends_at;
      days_remaining = some (Membership.days_remaining now m);
      is_current = current;
      included_service_ids = Plans.list_service_ids tenant m.membership_plan_id db;
      warning = if current then none else some (warning_for status m.ends_at);
    }

abbrev pub standing_or_none : ℕ → ℕ → Db → Option Membership → Standing
standing_or_none tenant now db none = no_membership
standing_or_none tenant now db (some m) = standing_of tenant now db m

-- The live membership at the business or else the last one of the client, at any business.
abbrev pub consulted : ℕ → ℕ → ℕ → Db → Option Membership
consulted tenant client business db =
    let last = head (Memberships.list_by_client tenant client 0 1 db) in
    elim (Memberships.get_current_for_client tenant client business db) [
      | some m ↦ some m
      | none ↦ last
    ]

unfoldable pub get_client_membership : (tenant now client business : ℕ) → Db → Standing
get_client_membership tenant now client business db =
    standing_or_none tenant now db (consulted tenant client business db)
