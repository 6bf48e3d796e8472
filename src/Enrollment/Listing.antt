-- ===== src/Enrollment/Listing.antt =====
-- src/application/membership: list_memberships.py and list_membership_plans.py. The summaries copy the
-- fields of their rows; here they hold the rows.
use schedule_appointments.Base.{ℕ, ◌+◌, Bool, Option, none, some, List, map}
use schedule_appointments.Base.Int.{ℤ, pos_part}
use schedule_appointments.Base.Clock.{days}
use schedule_appointments.Membership
use schedule_appointments.Membership.{Membership, MembershipPlan, Status}
use schedule_appointments.Store.Tables.{◌>>=◌, Tx, pure, query}
use schedule_appointments.Store.Memberships
use schedule_appointments.Store.Plans
use schedule_appointments.Admin.Paging.{page_number, page_length, page_offset}

pub record MembershipSummary : Type 0 where
  pub membership : Membership
  pub status : Status
  pub days_remaining : ℤ

abbrev membership_summary : (now : ℕ) → Membership → MembershipSummary
membership_summary now m = record {
  membership = m;
  status = Membership.effective_status now m;
  days_remaining = Membership.days_remaining now m;
}

pub record ListMembershipsOutput : Type 0 where
  pub memberships : List MembershipSummary
  pub total : ℕ
  pub page : ℕ
  pub page_size : ℕ

-- `now + timedelta(days=max(0, n))`
abbrev expiring_before : (now : ℕ) → Option ℤ → Option ℕ
expiring_before now none = none
expiring_before now (some n) = some (now + days (pos_part n))

unfoldable pub list_memberships :
    (tenant now business : ℕ)
    → Option Status
    → (expiring_in_days : Option ℤ) → (page page_size : ℤ) → Tx ListMembershipsOutput
list_memberships tenant now business status expiring page page_size = do
  rows ← query (
      Memberships.list_by_business tenant business status (expiring_before now expiring)
        (page_offset page page_size) (page_length page_size))
  total ←
      query (Memberships.count_by_business tenant business status (expiring_before now expiring))
  pure (record {
    memberships = map (membership_summary now) rows;
    total = total;
    page = page_number page;
    page_size = page_length page_size;
  })

pub record PlanSummary : Type 0 where
  pub plan : MembershipPlan
  pub service_ids : List ℕ

pub record ListPlansOutput : Type 0 where
  pub plans : List PlanSummary
  pub total : ℕ
  pub page : ℕ
  pub page_size : ℕ

unfoldable pub list_membership_plans :
    (tenant business : ℕ) (include_inactive : Bool) (page page_size : ℤ) → Tx ListPlansOutput
list_membership_plans tenant business include_inactive page page_size = do
  rows ← query (
      Plans.list_by_business tenant business include_inactive (page_offset page page_size)
        (page_length page_size))
  total ← query (Plans.count_by_business tenant business include_inactive)
  summaries ← query (λ db.
      map
        (λ (p : MembershipPlan). record {
          plan = p;
          service_ids = Plans.list_service_ids tenant p.id db;
        })
        rows)
  pure (record {
    plans = summaries;
    total = total;
    page = page_number page;
    page_size = page_length page_size;
  })
