-- ===== src/Onboarding/Distinct.antt =====
-- The slugs of the tenants over registration, verification and the wizard.
use schedule_appointments.Base.{
  ℕ, ◌≡◌, ◌≢◌, refl, sym, ◌∙◌, subst, ap, not, List, [], ◌∷◌, ◌==◌, All,
}
use schedule_appointments.Base.Text.{Text, is_blank}
use schedule_appointments.Errors.{
  Result, ok, called, validation, business_rule, empty_name, empty_phone, no_tenant, wrong_status,
  tenant_isolation, other_tenant,
}
use schedule_appointments.Slug.{Unicode}
use schedule_appointments.Tenant
use schedule_appointments.Tenant.{Tenant, same_status, onboarding}
use schedule_appointments.Business
use schedule_appointments.Business.{Business}
use schedule_appointments.Service.{Service}
use schedule_appointments.Store.Tables.{Db, Tx, ◌>>=◌, pure}
use schedule_appointments.Store.Rows.{merge}
use schedule_appointments.Store.Ensures.{
  Ensures, Ensures-bind, Ensures-lift, Ensures-require, Ensures-reject_if,
}
use schedule_appointments.Store.Tenants
use schedule_appointments.Store.Businesses
use schedule_appointments.Store.Services
use schedule_appointments.Store.Hours as HourStore
use schedule_appointments.Onboarding
use schedule_appointments.Onboarding.{Drawn, RegisterTenantInput}
use schedule_appointments.Onboarding.Templates.{get_templates}
use schedule_appointments.Onboarding.Wizard
use schedule_appointments.Onboarding.Wizard.{
  CompleteWizardInput, wizard_slug, wizard_draft, default_hours, default_services, add_all,
}
use schedule_appointments.Onboarding.Slugs.{TenantsOk}
use schedule_appointments.Onboarding.Kept.{
  complete_onboarding-eq-ok, register_tenant-TenantsOk, verify_email-TenantsOk, put_back-TenantsOk,
}

-- The use cases that write tenants.
pub data Call : Type 0 where
  register_tenant : Unicode → (hash : Text → Text) → Drawn → ℕ → RegisterTenantInput → Call
  verify_email : ℕ → Text → Call
  complete_wizard :
      Unicode → (tenant now new_id : ℕ) (hour_ids service_ids : ℕ → ℕ) → CompleteWizardInput → Call

abbrev forget : {A : Type 0} → Tx A → Tx (Unit {0})
forget m = m >>= λ _. pure tt

abbrev pub perform : Call → Tx (Unit {0})
perform (register_tenant u hash new now i) = forget (Onboarding.register_tenant u hash new now i)
perform (verify_email now token) = forget (Onboarding.verify_email now token)
perform (complete_wizard u tenant now new_id hour_ids service_ids i) =
    forget (Wizard.complete_wizard u tenant now new_id hour_ids service_ids i)

-- A registration draws an id that no tenant has.
abbrev pub IsFresh : Call → Db → Type 0
IsFresh (register_tenant u hash new now i) db =
    All (λ (t : Tenant). t.id ≢ new.tenant_id) db.tenants
IsFresh _ db = Unit

-- The tenants of `db` stand as they are.
abbrev SameTenants : {A : Type 0} → Db → Result (A × Db) → Type 0
SameTenants db r = Ensures r (λ _ d. d.tenants ≡ db.tenants)

add_business-tenants :
    (tenant : ℕ) (b : Business) (db : Db) → SameTenants db (Businesses.add tenant b db)
unfolding Businesses.add
add_business-tenants tenant b db =
    Ensures-reject_if (not (b.tenant_id == tenant)) (tenant_isolation other_tenant) _ db _ λ _. refl

add_all-tenants :
    (tenant : ℕ) (ss : List Service) (db d : Db)
    → d.tenants ≡ db.tenants
    → SameTenants db (add_all tenant ss d)
unfolding Services.add
add_all-tenants tenant [] db d h = h
add_all-tenants tenant (s ∷ ss) db d h =
    Ensures-bind (Services.add tenant s) _ d (λ _ e. e.tenants ≡ db.tenants) _
      (Ensures-reject_if (not (s.tenant_id == tenant)) (tenant_isolation other_tenant) _ d _ λ _. h)
      (λ _ e k. add_all-tenants tenant ss db e k)

complete_wizard-TenantsOk :
    (u : Unicode) (tenant now new_id : ℕ) (hour_ids service_ids : ℕ → ℕ) (i : CompleteWizardInput)
    (db : Db)
    → TenantsOk db.tenants
    → Ensures
        (Wizard.complete_wizard u tenant now new_id hour_ids service_ids i db)
        (λ _ d. TenantsOk d.tenants)
unfolding Wizard.complete_wizard HourStore.upsert_many Tenants.update
complete_wizard-TenantsOk u tenant now new_id hour_ids service_ids i db h =
    Ensures-reject_if (is_blank i.business_name) (validation empty_name) _ db _ λ _.
      Ensures-reject_if (is_blank i.phone) (validation empty_phone) _ db _ λ _.
        Ensures-lift (Tenants.get_by_id tenant db) _ db _ λ o r.
          Ensures-require o (validation no_tenant) _ db _ λ t f.
            Ensures-reject_if (not (same_status t.status onboarding)) (business_rule wrong_status) _
              db _
              λ _. Ensures-lift (wizard_slug u tenant db i.business_name) _ db _ λ slug _.
                Ensures-lift (Business.create u new_id now (wizard_draft tenant slug i)) _ db _
                  λ b _. Ensures-lift (default_hours hour_ids now tenant b.id 7 0) _ db _ λ hours _.
                    Ensures-lift
                      (default_services service_ids now tenant b.id 0 (get_templates t.industry)) _
                      db _
                      λ services _.
                        Ensures-lift (called (Tenant.complete_onboarding now t)) _ db _ λ t' c.
                          Ensures-bind (Businesses.add tenant b) _ db
                            (λ _ d. d.tenants ≡ db.tenants) _ (add_business-tenants tenant b db)
                            λ _ d same.
                              Ensures-bind (add_all tenant services) _
                                (HourStore.upsert_many tenant hours d)
                                (λ _ e. e.tenants ≡ db.tenants) _
                                (add_all-tenants tenant services db
                                  (HourStore.upsert_many tenant hours d) same)
                                λ _ e last.
                                  subst
                                    (λ ts.
                                      TenantsOk
                                        (merge (λ (t : Tenant). t.id) (Tenants.to_row t') ts))
                                    (sym last)
                                    (put_back-TenantsOk tenant t t' db h (r ∙ ap ok f)
                                      (complete_onboarding-eq-ok now t t' c))

forget-TenantsOk :
    {A : Type 0} (m : Tx A) (db : Db)
    → Ensures (m db) (λ _ d. TenantsOk d.tenants)
    → Ensures (forget m db) (λ _ d. TenantsOk d.tenants)
forget-TenantsOk m db h = Ensures-bind m _ db (λ _ d. TenantsOk d.tenants) _ h (λ _ _ k. k)

-- Registration, the verification of the mail and the wizard, where they succeed, keep every stored slug
-- one that `TenantSlug` takes, so that its row can be read back, and no two tenants with the same slug
-- or the same id, given that a registration draws an id that no tenant has.
pub perform-TenantsOk :
    (c : Call) (db : Db)
    → IsFresh c db
    → TenantsOk db.tenants
    → Ensures (perform c db) (λ _ d. TenantsOk d.tenants)
perform-TenantsOk (register_tenant u hash new now i) db fresh h =
    forget-TenantsOk (Onboarding.register_tenant u hash new now i) db
      (register_tenant-TenantsOk u hash new now i db fresh h)
perform-TenantsOk (verify_email now token) db fresh h =
    forget-TenantsOk (Onboarding.verify_email now token) db (verify_email-TenantsOk now token db h)
perform-TenantsOk (complete_wizard u tenant now new_id hour_ids service_ids i) db fresh h =
    forget-TenantsOk (Wizard.complete_wizard u tenant now new_id hour_ids service_ids i) db
      (complete_wizard-TenantsOk u tenant now new_id hour_ids service_ids i db h)
