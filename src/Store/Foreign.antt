-- ===== src/Store/Foreign.antt =====
-- What the writes of the repositories of businesses, services and professionals leave alone: the rows
-- of other tenants.
use schedule_appointments.Base.{
  ℕ, ◌≡◌, refl, sym, subst, Bool, true, false, ◌&&◌, not, Option, none, some, List, arith, ◌==◌,
  first, keep, first-holds,
}
use schedule_appointments.Business.{Business}
use schedule_appointments.Service.{Service}
use schedule_appointments.Professional.{Professional}
use schedule_appointments.Store.Tables.{Db, Assignment}
use schedule_appointments.Store.Rows.{Unique, foreign, foreign-append_own, foreign-merge_own}
use schedule_appointments.Store.Ensures.{Ensures, Ensures-reject_if}
use schedule_appointments.Store.Businesses
use schedule_appointments.Store.Services
use schedule_appointments.Store.Professionals

-- The ids of the rows are the primary keys of the tables.
abbrev pub KeysUnique : Db → Type 0
KeysUnique db =
    Unique (λ (b : Business). b.id) db.businesses
    × Unique (λ (s : Service). s.id) db.services
    × Unique (λ (p : Professional). p.id) db.professionals

module _ (tenant : ℕ) where
  abbrev pub foreign_businesses : Db → List Business
  foreign_businesses db = keep (foreign (λ b. b.tenant_id) tenant) db.businesses

  abbrev pub foreign_services : Db → List Service
  foreign_services db = keep (foreign (λ s. s.tenant_id) tenant) db.services

  abbrev pub foreign_professionals : Db → List Professional
  foreign_professionals db = keep (foreign (λ p. p.tenant_id) tenant) db.professionals

  abbrev pub foreign_assignments : Db → List Assignment
  foreign_assignments db = keep (foreign (λ a. a.tenant_id) tenant) db.assignments

  -- Other tenants find the rows that they had.
  abbrev pub SameForeign : Db → Db → Type 0
  SameForeign db db' =
      (foreign_businesses db' ≡ foreign_businesses db)
      × (foreign_services db' ≡ foreign_services db)
      × (foreign_professionals db' ≡ foreign_professionals db)
      × (foreign_assignments db' ≡ foreign_assignments db)

  own : (n : ℕ) → not (n == tenant) ≡ false → n ≡ tenant
  own n h = ground arith

  same_id : (k id : ℕ) (b : Bool) → (k == id && b) ≡ true → k ≡ id
  same_id k id b h = ground arith

  owned : (b : Bool) (n : ℕ) → (b && n == tenant) ≡ true → n ≡ tenant
  owned b n h = ground arith

  pub add_business :
      (b : Business) (db : Db) → Ensures (Businesses.add tenant b db) (λ _. SameForeign db)
  unfolding Businesses.add
  add_business b db =
      Ensures-reject_if (not (b.tenant_id == tenant)) _ _ db (λ _. SameForeign db)
        λ e. (
          foreign-append_own (λ b. b.tenant_id) tenant b db.businesses (own b.tenant_id e),
          refl,
          refl,
          refl,
        )

  pub add_service :
      (s : Service) (db : Db) → Ensures (Services.add tenant s db) (λ _. SameForeign db)
  unfolding Services.add
  add_service s db =
      Ensures-reject_if (not (s.tenant_id == tenant)) _ _ db (λ _. SameForeign db)
        λ e. (
          refl,
          foreign-append_own (λ s. s.tenant_id) tenant s db.services (own s.tenant_id e),
          refl,
          refl,
        )

  pub add_professional :
      (p : Professional) (db : Db) → Ensures (Professionals.add tenant p db) (λ _. SameForeign db)
  unfolding Professionals.add
  add_professional p db =
      Ensures-reject_if (not (p.tenant_id == tenant)) _ _ db (λ _. SameForeign db)
        λ e. (
          refl,
          refl,
          foreign-append_own (λ p. p.tenant_id) tenant p db.professionals (own p.tenant_id e),
          refl,
        )

  pub update_business :
      (b : Business) {found : Business} (db : Db)
      → KeysUnique db
      → first (λ (x : Business). x.id == b.id && x.tenant_id == tenant) db.businesses ≡ some found
      → Ensures (Businesses.update tenant b db) (λ _. SameForeign db)
  unfolding Businesses.update
  update_business b db u f =
      Ensures-reject_if (not (b.tenant_id == tenant)) _ _ db (λ _. SameForeign db)
        λ e. (
          foreign-merge_own (λ x. x.id) (λ x. x.tenant_id) tenant b db.businesses u.0 f
              (own b.tenant_id e),
          refl,
          refl,
          refl,
        )

  pub delete_business :
      (now id : ℕ) (db : Db)
      → KeysUnique db
      → Ensures (Businesses.delete tenant now id db) (λ _. SameForeign db)
  unfolding Businesses.delete Businesses.get_by_id
  delete_business now id db u =
      hidden (first (λ (x : Business). x.id == id && x.tenant_id == tenant) db.businesses) refl
    where
      hidden :
          (o : Option Business)
          → first (λ (x : Business). x.id == id && x.tenant_id == tenant) db.businesses ≡ o
          → Ensures (Businesses.hidden tenant now o db) (λ _. SameForeign db)
      hidden none e = (refl, refl, refl, refl)
      hidden (some b) e =
          let is_it =
            first-holds (λ (x : Business). x.id == id && x.tenant_id == tenant) db.businesses e in
          let same : b.id ≡ id = same_id b.id id (b.tenant_id == tenant) is_it in
          (
            foreign-merge_own (λ x. x.id) (λ x. x.tenant_id) tenant
                (record b { is_active = false; updated_at = now }) db.businesses u.0
                (subst
                  (λ (k : ℕ).
                    first (λ (x : Business). x.id == k && x.tenant_id == tenant) db.businesses
                    ≡ some b)
                  (sym same) e)
                (owned (b.id == id) b.tenant_id is_it),
            refl,
            refl,
            refl,
          )

  pub update_service :
      (s : Service) {found : Service} (db : Db)
      → KeysUnique db
      → first (λ (x : Service). x.id == s.id && x.tenant_id == tenant) db.services ≡ some found
      → Ensures (Services.update tenant s db) (λ _. SameForeign db)
  unfolding Services.update
  update_service s db u f =
      Ensures-reject_if (not (s.tenant_id == tenant)) _ _ db (λ _. SameForeign db)
        λ e. (
          refl,
          foreign-merge_own (λ x. x.id) (λ x. x.tenant_id) tenant s db.services u.1 f
              (own s.tenant_id e),
          refl,
          refl,
        )

  pub delete_service :
      (now id : ℕ) (db : Db)
      → KeysUnique db
      → Ensures (Services.delete tenant now id db) (λ _. SameForeign db)
  unfolding Services.delete Services.get_by_id
  delete_service now id db u =
      hidden (first (λ (x : Service). x.id == id && x.tenant_id == tenant) db.services) refl
    where
      hidden :
          (o : Option Service)
          → first (λ (x : Service). x.id == id && x.tenant_id == tenant) db.services ≡ o
          → Ensures (Services.hidden tenant now o db) (λ _. SameForeign db)
      hidden none e = (refl, refl, refl, refl)
      hidden (some s) e =
          let is_it =
            first-holds (λ (x : Service). x.id == id && x.tenant_id == tenant) db.services e in
          let same : s.id ≡ id = same_id s.id id (s.tenant_id == tenant) is_it in
          (
            refl,
            foreign-merge_own (λ x. x.id) (λ x. x.tenant_id) tenant
                (record s { is_active = false; updated_at = now }) db.services u.1
                (subst
                  (λ (k : ℕ).
                    first (λ (x : Service). x.id == k && x.tenant_id == tenant) db.services
                    ≡ some s)
                  (sym same) e)
                (owned (s.id == id) s.tenant_id is_it),
            refl,
            refl,
          )

  pub update_professional :
      (p : Professional) {found : Professional} (db : Db)
      → KeysUnique db
      → first (λ (x : Professional). x.id == p.id && x.tenant_id == tenant) db.professionals
        ≡ some found
      → Ensures (Professionals.update tenant p db) (λ _. SameForeign db)
  unfolding Professionals.update
  update_professional p db u f =
      Ensures-reject_if (not (p.tenant_id == tenant)) _ _ db (λ _. SameForeign db)
        λ e. (
          refl,
          refl,
          foreign-merge_own (λ x. x.id) (λ x. x.tenant_id) tenant p db.professionals u.2 f
              (own p.tenant_id e),
          refl,
        )

  pub delete_professional :
      (now id : ℕ) (db : Db)
      → KeysUnique db
      → Ensures (Professionals.delete tenant now id db) (λ _. SameForeign db)
  unfolding Professionals.delete Professionals.get_by_id
  delete_professional now id db u =
      hidden (first (λ (x : Professional). x.id == id && x.tenant_id == tenant) db.professionals)
        refl
    where
      hidden :
          (o : Option Professional)
          → first (λ (x : Professional). x.id == id && x.tenant_id == tenant) db.professionals ≡ o
          → Ensures (Professionals.hidden tenant now o db) (λ _. SameForeign db)
      hidden none e = (refl, refl, refl, refl)
      hidden (some p) e =
          let is_it =
            first-holds (λ (x : Professional). x.id == id && x.tenant_id == tenant) db.professionals
              e in
          let same : p.id ≡ id = same_id p.id id (p.tenant_id == tenant) is_it in
          (
            refl,
            refl,
            foreign-merge_own (λ x. x.id) (λ x. x.tenant_id) tenant
                (record p { is_active = false; updated_at = now }) db.professionals u.2
                (subst
                  (λ (k : ℕ).
                    first (λ (x : Professional). x.id == k && x.tenant_id == tenant)
                      db.professionals
                    ≡ some p)
                  (sym same) e)
                (owned (p.id == id) p.tenant_id is_it),
            refl,
          )
