-- ===== src/Admin/Kept/Offer.antt =====
-- The use cases of src/application/service and src/application/professional leave the rows of other
-- tenants as they are.
use mathlib.Core.List.{append-nil}
use schedule_appointments.Base.{
  ℕ, ◌≡◌, ◌∙◌, refl, sym, subst, ap, Bool, false, ◌&&◌, not, Option, List, [], ◌∷◌, ◌++◌, arith,
  ◌==◌, keep, All, ==_refl, keep-append, keep-none, keep-keep_implied,
}
use schedule_appointments.Base.Int.{pos, ltb_ℤ}
use schedule_appointments.Base.Text.{Text, is_blank}
use schedule_appointments.Errors.{
  called, foreign_business, inactive, validation, not_found, conflict, empty_name, no_service,
  no_professional, already_member, short_duration, negative_price, low_capacity,
}
use schedule_appointments.Service
use schedule_appointments.Service.{Service}
use schedule_appointments.Professional
use schedule_appointments.Professional.{Professional}
use schedule_appointments.Store.Tables.{Db, Assignment}
use schedule_appointments.Store.Rows.{foreign}
use schedule_appointments.Store.Ensures.{
  Ensures, Ensures-bind, Ensures-lift, Ensures-require, Ensures-reject_if,
}
use schedule_appointments.Store.Services as ServiceStore
use schedule_appointments.Store.Professionals as ProfessionalStore
use schedule_appointments.Store.Foreign
use schedule_appointments.Store.Foreign.{KeysUnique, SameForeign}
use schedule_appointments.Admin.Businesses.{is_given_blank}
use schedule_appointments.Admin.Services
use schedule_appointments.Admin.Services.{is_below, CreateServiceInput}
use schedule_appointments.Admin.Professionals
use schedule_appointments.Admin.Professionals.{is_there_already, CreateProfessionalInput}
use schedule_appointments.Admin.Kept.{
  Keeps, update_service-id, update_professional-id, put_back_service, put_back_professional,
}

module _ (tenant : ℕ) where
  pub create_service-Keeps :
      (now new_id : ℕ) (i : CreateServiceInput) (db : Db)
      → Keeps tenant db (Services.create_service tenant now new_id i db)
  unfolding Services.create_service
  create_service-Keeps now new_id i db =
      Ensures-reject_if (is_blank i.name) (validation empty_name) _ db _ λ _.
        Ensures-reject_if (ltb_ℤ i.duration_minutes (pos 1)) (validation short_duration) _ db _ λ _.
          Ensures-reject_if (is_below (pos 0) i.price) (validation negative_price) _ db _ λ _.
            Ensures-reject_if (ltb_ℤ i.capacity (pos 1)) (validation low_capacity) _ db _ λ _.
              Ensures-lift (Service.create new_id now (Services.draft_of tenant i)) _ db _ λ s e.
                Ensures-bind (ServiceStore.add tenant s) _ db (λ _. SameForeign tenant db) _
                  (Foreign.add_service tenant s db) (λ _ _ k. k)

  pub update_service-Keeps :
      (now id : ℕ) (c : Service.Changes) (db : Db)
      → KeysUnique db
      → Keeps tenant db (Services.update_service tenant now id c db)
  unfolding Services.update_service
  update_service-Keeps now id c db u =
      Ensures-reject_if (is_given_blank c.name) (validation empty_name) _ db _ λ _.
        Ensures-reject_if (is_below (pos 1) c.duration_minutes) (validation short_duration) _ db _
          λ _. Ensures-reject_if (is_below (pos 0) c.price) (validation negative_price) _ db _ λ _.
            Ensures-reject_if (is_below (pos 1) c.capacity) (validation low_capacity) _ db _ λ _.
              Ensures-require (ServiceStore.get_by_id tenant id db) (not_found no_service) _ db _
                λ found f. Ensures-lift (called (Service.update c now found)) _ db _ λ s e.
                  Ensures-bind (ServiceStore.update tenant s) _ db (λ _. SameForeign tenant db) _
                    (put_back_service tenant id s db u f (update_service-id c now found e))
                    (λ _ _ k. k)

  pub delete_service-Keeps :
      (now id : ℕ) (db : Db)
      → KeysUnique db
      → Keeps tenant db (Services.delete_service tenant now id db)
  unfolding Services.delete_service
  delete_service-Keeps now id db u =
      Ensures-bind (ServiceStore.delete tenant now id) _ db (λ _. SameForeign tenant db) _
        (Foreign.delete_service tenant now id db u)
        λ deleted d k. Ensures-reject_if (not deleted) (not_found no_service) _ d _ λ _. k

  pub create_professional-Keeps :
      (now new_id : ℕ) (i : CreateProfessionalInput) (db : Db)
      → Keeps tenant db (Professionals.create_professional tenant now new_id i db)
  unfolding Professionals.create_professional
  create_professional-Keeps now new_id i db =
      Ensures-reject_if (is_blank i.name) (validation empty_name) _ db _ λ _.
        Ensures-reject_if (is_there_already tenant i.business_id i.user_id db)
          (conflict already_member) _ db _
          λ _.
            Ensures-lift
              (Professional.create new_id now tenant i.business_id i.name i.user_id i.phone) _ db _
              λ p e.
                Ensures-bind (ProfessionalStore.add tenant p) _ db (λ _. SameForeign tenant db) _
                  (Foreign.add_professional tenant p db) (λ _ _ k. k)

  pub update_professional-Keeps :
      (now id : ℕ) (name phone : Option Text) (db : Db)
      → KeysUnique db
      → Keeps tenant db (Professionals.update_professional tenant now id name phone db)
  unfolding Professionals.update_professional
  update_professional-Keeps now id name phone db u =
      Ensures-reject_if (is_given_blank name) (validation empty_name) _ db _ λ _.
        Ensures-require (ProfessionalStore.get_by_id tenant id db) (not_found no_professional) _ db
          _
          λ found f. Ensures-lift (called (Professional.update name phone now found)) _ db _ λ p e.
            Ensures-bind (ProfessionalStore.update tenant p) _ db (λ _. SameForeign tenant db) _
              (put_back_professional tenant id p db u f
                (update_professional-id name phone now found e))
              (λ _ _ k. k)

  pub delete_professional-Keeps :
      (now id : ℕ) (db : Db)
      → KeysUnique db
      → Keeps tenant db (Professionals.delete_professional tenant now id db)
  unfolding Professionals.delete_professional
  delete_professional-Keeps now id db u =
      Ensures-bind (ProfessionalStore.delete tenant now id) _ db (λ _. SameForeign tenant db) _
        (Foreign.delete_professional tenant now id db u)
        λ deleted d k. Ensures-reject_if (not deleted) (not_found no_professional) _ d _ λ _. k

  check_professionals-same :
      (business : ℕ) (ids : List ℕ) (db : Db)
      → Ensures (Services.check_professionals tenant business ids db) (λ _ d. d ≡ db)
  check_professionals-same business [] db = refl
  check_professionals-same business (id ∷ ids) db =
      Ensures-require (ProfessionalStore.get_by_id tenant id db) (not_found no_professional) _ db _
        λ p f.
          Ensures-reject_if (not (p.business_id == business)) (validation foreign_business) _ db _
            λ _.
              Ensures-reject_if (not p.is_active) (validation inactive) _ db _
                λ _. check_professionals-same business ids db

  no_foreign_rows :
      (service : ℕ) (ids : List ℕ)
      → All
          (λ (a : Assignment). foreign (λ a. a.tenant_id) tenant a ≡ false)
          (ServiceStore.new_rows tenant service ids)
  no_foreign_rows service [] = tt
  no_foreign_rows service (id ∷ ids) = (rw (==_refl tenant) refl, no_foreign_rows service ids)

  replaced_rows :
      (service : ℕ) (ids : List ℕ) (rows : List Assignment)
      → keep (foreign (λ (a : Assignment). a.tenant_id) tenant) (
          keep (λ a. not (a.service_id == service && a.tenant_id == tenant)) rows
          ++ ServiceStore.new_rows tenant service ids)
        ≡ keep (foreign (λ (a : Assignment). a.tenant_id) tenant) rows
  replaced_rows service ids rows =
      keep-append others (keep (λ a. not (a.service_id == service && a.tenant_id == tenant)) rows)
        (ServiceStore.new_rows tenant service ids)
      ∙ (ap
            (λ xs.
              keep others (keep (λ a. not (a.service_id == service && a.tenant_id == tenant)) rows)
              ++ xs)
            (keep-none others (ServiceStore.new_rows tenant service ids)
              (no_foreign_rows service ids))
          ∙ (append-nil (
                keep others
                  (keep (λ a. not (a.service_id == service && a.tenant_id == tenant)) rows))
              ∙ keep-keep_implied others
                  (λ a. not (a.service_id == service && a.tenant_id == tenant)) rows
                  (λ a h. ground arith)))
    where
      others : Assignment → Bool
      others a = not (a.tenant_id == tenant)

  pub assign_professionals-Keeps :
      (service : ℕ) (ids : List ℕ) (db : Db)
      → Keeps tenant db (Services.assign_professionals tenant service ids db)
  unfolding Services.assign_professionals ServiceStore.set_professionals
  assign_professionals-Keeps service ids db =
      Ensures-require (ServiceStore.get_by_id tenant service db) (not_found no_service) _ db _
        λ s f.
          Ensures-bind
            (Services.check_professionals tenant s.business_id (ServiceStore.distinct ids)) _ db
            (λ _ d. d ≡ db) _
            (check_professionals-same s.business_id (ServiceStore.distinct ids) db)
            λ _ d same.
              subst
                (λ x.
                  SameForeign tenant db
                    (ServiceStore.set_professionals tenant s.id (ServiceStore.distinct ids) x))
                (sym same)
                (
                  refl,
                  refl,
                  refl,
                  replaced_rows s.id (ServiceStore.distinct (ServiceStore.distinct ids))
                      db.assignments,
                )
