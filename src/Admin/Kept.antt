-- ===== src/Admin/Kept.antt =====
-- Writing back the rows of a tenant leaves those of other tenants as they are.
pub mod Locations
pub mod Offer
use schedule_appointments.Base.{
  ℕ, ◌≡◌, ◌∙◌, sym, subst, Bool, true, ◌&&◌, Option, some, arith, ◌==◌, first, first-holds,
}
use schedule_appointments.Base.Text.{Text}
use schedule_appointments.Errors.{ok, Result, called}
use schedule_appointments.Business
use schedule_appointments.Business.{Business}
use schedule_appointments.Service
use schedule_appointments.Service.{Service}
use schedule_appointments.Professional
use schedule_appointments.Professional.{Professional}
use schedule_appointments.Store.Tables.{Db}
use schedule_appointments.Store.Ensures.{Ensures}
use schedule_appointments.Store.Businesses as BusinessStore
use schedule_appointments.Store.Services as ServiceStore
use schedule_appointments.Store.Professionals as ProfessionalStore
use schedule_appointments.Store.Foreign
use schedule_appointments.Store.Foreign.{KeysUnique, SameForeign}
use schedule_appointments.Admin.Businesses
use schedule_appointments.Admin.Services
use schedule_appointments.Admin.Professionals

pub update_business-id :
    (c : Business.Changes) (now : ℕ) (b : Business) {b' : Business}
    → called (Business.update c now b) ≡ ok b'
    → b'.id ≡ b.id
unfolding Business.update
update_business-id c now b h = ground arith

pub update_service-id :
    (c : Service.Changes) (now : ℕ) (s : Service) {s' : Service}
    → called (Service.update c now s) ≡ ok s'
    → s'.id ≡ s.id
unfolding Service.update
update_service-id c now s h = ground arith

pub update_professional-id :
    (name phone : Option Text) (now : ℕ) (p : Professional) {p' : Professional}
    → called (Professional.update name phone now p) ≡ ok p'
    → p'.id ≡ p.id
unfolding Professional.update
update_professional-id name phone now p h = ground arith

module _ (tenant : ℕ) where
  -- Other tenants have the rows of `db`.
  abbrev pub Keeps : {A : Type 0} → Db → Result (A × Db) → Type 0
  Keeps db r = Ensures r (λ _. SameForeign tenant db)

  matching : (k id : ℕ) (b : Bool) → (k == id && b) ≡ true → k ≡ id
  matching k id b h = ground arith

  -- Writing a row back under the id with which it was found.
  pub put_back_business :
      (id : ℕ) (b : Business) {found : Business} (db : Db)
      → KeysUnique db
      → BusinessStore.get_by_id tenant id db ≡ some found
      → b.id ≡ found.id
      → Keeps db (BusinessStore.update tenant b db)
  unfolding BusinessStore.get_by_id
  put_back_business id b {found} db u f same = Foreign.update_business tenant b db u (
      subst
        (λ (k : ℕ).
          first (λ (x : Business). x.id == k && x.tenant_id == tenant) db.businesses ≡ some found)
        (sym (
          same
          ∙ matching found.id id (found.tenant_id == tenant) (
              first-holds (λ (x : Business). x.id == id && x.tenant_id == tenant) db.businesses f)))
        f)

  -- Writing a row back under the id with which it was found.
  pub put_back_service :
      (id : ℕ) (s : Service) {found : Service} (db : Db)
      → KeysUnique db
      → ServiceStore.get_by_id tenant id db ≡ some found
      → s.id ≡ found.id
      → Keeps db (ServiceStore.update tenant s db)
  unfolding ServiceStore.get_by_id
  put_back_service id s {found} db u f same = Foreign.update_service tenant s db u (
      subst
        (λ (k : ℕ).
          first (λ (x : Service). x.id == k && x.tenant_id == tenant) db.services ≡ some found)
        (sym (
          same
          ∙ matching found.id id (found.tenant_id == tenant)
              (first-holds (λ (x : Service). x.id == id && x.tenant_id == tenant) db.services f)))
        f)

  -- Writing a row back under the id with which it was found.
  pub put_back_professional :
      (id : ℕ) (p : Professional) {found : Professional} (db : Db)
      → KeysUnique db
      → ProfessionalStore.get_by_id tenant id db ≡ some found
      → p.id ≡ found.id
      → Keeps db (ProfessionalStore.update tenant p db)
  unfolding ProfessionalStore.get_by_id
  put_back_professional id p {found} db u f same = Foreign.update_professional tenant p db u (
      subst
        (λ (k : ℕ).
          first (λ (x : Professional). x.id == k && x.tenant_id == tenant) db.professionals
          ≡ some found)
        (sym (
          same
          ∙ matching found.id id (found.tenant_id == tenant) (
              first-holds (λ (x : Professional). x.id == id && x.tenant_id == tenant)
                db.professionals f)))
        f)
