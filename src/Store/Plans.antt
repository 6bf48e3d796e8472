-- ===== src/Store/Plans.antt =====
-- src/infrastructure/persistence/repositories/membership_repository.py: MembershipPlanRepositoryImpl
pub mod Included
use schedule_appointments.Base.{
  ℕ, Bool, ◌&&◌, ◌||◌, not, Option, List, [], ◌∷◌, ◌++◌, map, ◌==◌, first, keep, count, page,
}
use schedule_appointments.Base.Sort.{sort_on}
use schedule_appointments.Errors.{tenant_isolation, other_tenant}
use schedule_appointments.Membership.{MembershipPlan}
use schedule_appointments.Store.Tables.{◌>>◌, Db, Tx, PlanService, modify, reject_if}
use schedule_appointments.Store.Rows.{merge}

-- `dict.fromkeys(xs)`: each element once, in the order in which they first come.
abbrev pub unrepeated : List ℕ → List ℕ
unrepeated [] = []
unrepeated (x ∷ xs) = x ∷ keep (λ y. not (y == x)) (unrepeated xs)

module _ (tenant : ℕ) where
  unfoldable pub get_by_id : ℕ → Db → Option MembershipPlan
  get_by_id id db = first (λ p. p.id == id && p.tenant_id == tenant) db.plans

  abbrev pub is_listed : ℕ → Bool → MembershipPlan → Bool
  is_listed business include_inactive p =
      p.tenant_id == tenant && (p.business_id == business && (include_inactive || p.is_active))

  unfoldable pub list_by_business : ℕ → Bool → (offset limit : ℕ) → Db → List MembershipPlan
  list_by_business business include_inactive offset limit db = page offset limit (
      sort_on (λ (p : MembershipPlan). p.price)
        (keep (is_listed business include_inactive) db.plans))

  unfoldable pub count_by_business : ℕ → Bool → Db → ℕ
  count_by_business business include_inactive db =
      count (is_listed business include_inactive) db.plans

  unfoldable pub add : MembershipPlan → Tx (Unit {0})
  add p = do
    reject_if (not (p.tenant_id == tenant)) (tenant_isolation other_tenant)
    modify (λ db. record db { plans = db.plans ++ p ∷ [] })

  unfoldable pub update : MembershipPlan → Tx (Unit {0})
  update p = do
    reject_if (not (p.tenant_id == tenant)) (tenant_isolation other_tenant)
    modify (λ db. record db { plans = merge (λ (x : MembershipPlan). x.id) p db.plans })

  abbrev pub is_of_plan : ℕ → PlanService → Bool
  is_of_plan plan r = r.plan_id == plan && r.tenant_id == tenant

  -- The query names no order.
  unfoldable pub list_service_ids : ℕ → Db → List ℕ
  list_service_ids plan db =
      db.arrange (map (λ (r : PlanService). r.service_id) (keep (is_of_plan plan) db.plan_services))

  abbrev pub service_row : ℕ → ℕ → PlanService
  service_row plan service = record { tenant_id = tenant; plan_id = plan; service_id = service }

  unfoldable pub set_services : ℕ → List ℕ → Db → Db
  set_services plan ids db = record db {
    plan_services =
        keep (λ r. not (is_of_plan plan r)) db.plan_services
        ++ map (service_row plan) (unrepeated ids);
  }
