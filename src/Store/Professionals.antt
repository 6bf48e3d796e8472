-- ===== src/Store/Professionals.antt =====
-- src/infrastructure/persistence/repositories/professional_repository.py
use schedule_appointments.Base.{
  ℕ, Bool, true, false, ◌&&◌, not, Option, none, some, List, [], ◌∷◌, ◌++◌, ◌==◌, same_id, first,
  any, keep, count, page, if◌then◌else◌,
}
use schedule_appointments.Errors.{tenant_isolation, other_tenant}
use schedule_appointments.Professional.{Professional}
use schedule_appointments.Store.Tables.{◌>>◌, Db, Tx, Assignment, pure, modify, reject_if}
use schedule_appointments.Store.Rows.{merge}

unfoldable pub get_by_id : ℕ → ℕ → Db → Option Professional
get_by_id tenant id db = first (λ p. p.id == id && p.tenant_id == tenant) db.professionals

module _ (tenant : ℕ) where
  abbrev pub is_user_in : ℕ → ℕ → Professional → Bool
  is_user_in user business p =
      same_id p.user_id user && (p.business_id == business && p.tenant_id == tenant)

  unfoldable pub get_by_user_and_business : (user business : ℕ) → Db → Option Professional
  get_by_user_and_business user business db = first (is_user_in user business) db.professionals

  unfoldable pub user_in_business_exists : (user business : ℕ) → Db → Bool
  user_in_business_exists user business db = any (is_user_in user business) db.professionals

  abbrev pub is_listed : ℕ → Professional → Bool
  is_listed business p = p.tenant_id == tenant && (p.business_id == business && p.is_active)

  -- The query names no order: the rows are here in the order in which they were added.
  unfoldable pub list_by_business : (business offset limit : ℕ) → Db → List Professional
  list_by_business business offset limit db =
      page offset limit (keep (is_listed business) db.professionals)

  unfoldable pub count_by_business : ℕ → Db → ℕ
  count_by_business business db = count (is_listed business) db.professionals

  unfoldable pub add : Professional → Tx (Unit {0})
  add p = do
    reject_if (not (p.tenant_id == tenant)) (tenant_isolation other_tenant)
    modify (λ db. record db { professionals = db.professionals ++ p ∷ [] })

  unfoldable pub update : Professional → Tx (Unit {0})
  unfolding merge
  update p = do
    reject_if (not (p.tenant_id == tenant)) (tenant_isolation other_tenant)
    modify
        (λ db. record db { professionals = merge (λ (p : Professional). p.id) p db.professionals })

  -- A soft delete; the column `updated_at` is set to the database's clock.
  abbrev pub hidden : ℕ → Option Professional → Tx Bool
  hidden now none = pure false
  hidden now (some p) = do
    modify (λ db. record db {
      professionals =
          merge (λ (p : Professional). p.id) (record p { is_active = false; updated_at = now })
            db.professionals;
    })
    pure true

  unfoldable pub delete : (now id : ℕ) → Tx Bool
  unfolding get_by_id merge
  delete now id db = hidden now (get_by_id tenant id db) db

  -- The join with the table of assignments, in the order of that table.
  abbrev pub assigned_to : ℕ → List Professional → List Assignment → List Professional
  assigned_to service ps [] = []
  assigned_to service ps (r ∷ rows) =
      if r.service_id == service
      then keep (λ p. p.id == r.professional_id && (p.tenant_id == tenant && p.is_active)) ps
        ++ assigned_to service ps rows
      else assigned_to service ps rows

  unfoldable pub list_by_service : ℕ → Db → List Professional
  list_by_service service db = assigned_to service db.professionals db.assignments
