-- ===== src/Onboarding/Wizard.antt =====
-- src/application/onboarding: complete_wizard.py and connect_whatsapp.py
use schedule_appointments.Base.{
  ℕ, zero, suc, Option, none, some, List, [], ◌∷◌, ◌==◌, not, length, head,
}
use schedule_appointments.Base.Int.{pos}
use schedule_appointments.Base.Text.{Text, codes, is_blank}
use schedule_appointments.Errors.{
  Result, ok, called, then_try, validation, business_rule, not_found, empty_name, empty_phone,
  wrong_status, no_slug_left, no_tenant, no_token, no_business,
}
use schedule_appointments.Slug.{Unicode, slugify, unique_slug}
use schedule_appointments.Tenant
use schedule_appointments.Tenant.{Tenant, TenantStatus, onboarding, same_status}
use schedule_appointments.Business
use schedule_appointments.Business.{Business}
use schedule_appointments.Service
use schedule_appointments.Service.{Service}
use schedule_appointments.Hours
use schedule_appointments.Hours.{BusinessHour}
use schedule_appointments.Appointment.{minutes}
use schedule_appointments.Store.Tables.{
  ◌>>=◌, ◌>>◌, Db, Tx, pure, query, require, lift, modify, reject_if,
}
use schedule_appointments.Store.Tenants
use schedule_appointments.Store.Businesses
use schedule_appointments.Store.Services
use schedule_appointments.Store.Hours as HourStore
use schedule_appointments.Onboarding.Templates.{ServiceTemplate, get_templates}

pub record CompleteWizardInput : Type 0 where
  pub business_name : Text
  pub phone : Text
  pub timezone : Text
  pub address : Option Text

pub record CompleteWizardOutput : Type 0 where
  pub business_id : ℕ
  pub business_slug : Text
  pub tenant_status : TenantStatus
  pub services_created : ℕ

-- The loop over `slug_exists` in `execute`.
unfoldable pub wizard_slug : Unicode → (tenant : ℕ) → Db → Text → Result Text
unfolding slugify unique_slug Businesses.slug_exists
wizard_slug u tenant db name =
    unique_slug ok (Businesses.slug_exists tenant db) (business_rule no_slug_left)
      (slugify u (codes "business") name)

-- `_OPEN_AT` and `_CLOSE_AT`
abbrev pub open_at : ℕ
open_at = minutes 480

abbrev pub close_at : ℕ
close_at = minutes 1080

-- The days from `day`, of which Sunday is closed. `new_ids n` is the n-th id that `uuid4` gives.
abbrev pub default_hours :
    (new_ids : ℕ → ℕ) (now tenant business left day : ℕ) → Result (List BusinessHour)
default_hours new_ids now tenant business zero day = ok []
default_hours new_ids now tenant business (suc left) day =
    let rest = default_hours new_ids now tenant business left (suc day) in
    then_try (Hours.create (new_ids day) now tenant business (pos day) open_at close_at (day == 6))
      λ h. then_try rest λ hs. ok (h ∷ hs)

abbrev service_draft : (tenant business : ℕ) → ServiceTemplate → Service.Draft
service_draft tenant business t = record {
  tenant_id = tenant;
  business_id = business;
  name = t.name;
  duration_minutes = pos t.duration_minutes;
  description = some t.description;
  price = none;
  capacity = pos 1;
}

abbrev pub default_services :
    (new_ids : ℕ → ℕ) (now tenant business n : ℕ) → List ServiceTemplate → Result (List Service)
default_services new_ids now tenant business n [] = ok []
default_services new_ids now tenant business n (t ∷ ts) =
    let rest = default_services new_ids now tenant business (suc n) ts in
    then_try (Service.create (new_ids n) now (service_draft tenant business t))
      λ s. then_try rest λ ss. ok (s ∷ ss)

abbrev pub add_all : (tenant : ℕ) → List Service → Tx (Unit {0})
add_all tenant [] = pure tt
add_all tenant (s ∷ ss) = Services.add tenant s >> add_all tenant ss

abbrev pub wizard_draft : (tenant : ℕ) → Text → CompleteWizardInput → Business.Draft
wizard_draft tenant slug i = record {
  tenant_id = tenant;
  name = i.business_name;
  slug = slug;
  phone = i.phone;
  timezone = i.timezone;
  description = none;
  email = none;
  address = i.address;
}

-- `new_id` is the id of the business, and the other ids those of its hours and its services.
unfoldable pub complete_wizard :
    Unicode
    → (tenant now new_id : ℕ) (hour_ids service_ids : ℕ → ℕ) → CompleteWizardInput
    → Tx CompleteWizardOutput
complete_wizard u tenant now new_id hour_ids service_ids i = do
  reject_if (is_blank i.business_name) (validation empty_name)
  reject_if (is_blank i.phone) (validation empty_phone)
  t ← require (← lift (← query (Tenants.get_by_id tenant))) (validation no_tenant)
  reject_if (not (same_status t.status onboarding)) (business_rule wrong_status)
  slug ← lift (← query (λ db. wizard_slug u tenant db i.business_name))
  b ← lift (Business.create u new_id now (wizard_draft tenant slug i))
  hours ← lift (default_hours hour_ids now tenant b.id 7 0)
  services ← lift (default_services service_ids now tenant b.id 0 (get_templates t.industry))
  t' ← lift (called (Tenant.complete_onboarding now t))
  Businesses.add tenant b
  modify (HourStore.upsert_many tenant hours)
  add_all tenant services
  modify (Tenants.update t')
  pure (record {
    business_id = b.id;
    business_slug = b.slug;
    tenant_status = t'.status;
    services_created = length services;
  })

-- What the calls to the Graph API of Meta give for an authorization code, or the exception.
pub record WabaInfo : Type 0 where
  pub waba_id : Text
  pub phone_number_id : Text
  pub access_token : Text
  pub phone_display : Text

pub record ConnectWhatsAppOutput : Type 0 where
  pub business_id : ℕ
  pub waba_id : Text
  pub phone_number_id : Text
  pub phone_display : Text

unfoldable pub connect_whatsapp :
    (meta : (code redirect_uri : Text) → Result WabaInfo) (tenant now : ℕ)
    (code redirect_uri : Text)
    → Tx ConnectWhatsAppOutput
connect_whatsapp meta tenant now code redirect_uri = do
  reject_if (is_blank code) (validation no_token)
  businesses ← query (Businesses.list_active tenant 0 1)
  b ← require (head businesses) (not_found no_business)
  info ← lift (meta code redirect_uri)
  b' ← lift (
      called (
        Business.connect_via_embedded_signup info.waba_id info.phone_number_id info.access_token
          (some info.phone_display) now b))
  Businesses.update tenant b'
  pure (record {
    business_id = b'.id;
    waba_id = info.waba_id;
    phone_number_id = info.phone_number_id;
    phone_display = info.phone_display;
  })
