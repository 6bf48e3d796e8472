-- ===== src/Examples/Onboarding.antt =====
-- A salon that registers, is verified and finishes the wizard, and the theorems on the way.
use schedule_appointments.Base.{
  ◌+◌, ◌<◌, ◌≡◌, ◌++◌, arith, refl, Bool, true, false, ◌&&◌, ◌||◌, Option, List, some, none, [],
  ◌∷◌, map, leb, length, if◌then◌else◌,
}
use schedule_appointments.Base.Clock.{days}
use schedule_appointments.Base.Text.{Text, codes, strip, text_eq, is_space, lstrip}
use schedule_appointments.Errors.{
  Result, ok, err, conflict, validation, business_rule, no_slug_left, bad_slug, email_taken,
  not_found, no_service, wrong_status,
}
use schedule_appointments.Slug.{
  Unicode, is_slug, slugify, decimal, tenant_slug, next_slug, unique_slug,
}
use schedule_appointments.Slug.Free.{Ends, unique_slug-Ends}
use schedule_appointments.Slug.Shape.{IsWord, IsSlugged, ends_alnum, is_slug-slugify}
use schedule_appointments.Tenant
use schedule_appointments.Tenant.{
  Tenant, pending_verification, active, trial, pro, same_status, same_plan,
}
use schedule_appointments.Tenant.Lifecycle
use schedule_appointments.Tenant.Lifecycle.{Tells, perform_all, registered-Tells}
use schedule_appointments.Business
use schedule_appointments.Service
use schedule_appointments.Hours
use schedule_appointments.Base.Sort.{sort_on}
use schedule_appointments.Store.Tables.{Db}
use schedule_appointments.Store.Rows.{merge}
use schedule_appointments.Store.Ensures.{Ensures}
use schedule_appointments.Store.Tenants
use schedule_appointments.Store.Users
use schedule_appointments.Store.Businesses
use schedule_appointments.Store.Services
use schedule_appointments.Store.Hours as HourStore
use schedule_appointments.Store.Foreign.{SameForeign}
use schedule_appointments.Onboarding
use schedule_appointments.Onboarding.{Drawn, RegisterTenantInput, RegisterTenantOutput}
use schedule_appointments.Onboarding.Wizard
use schedule_appointments.Onboarding.Wizard.{CompleteWizardInput, CompleteWizardOutput}
use schedule_appointments.Onboarding.Templates.{get_templates}
use schedule_appointments.Onboarding.Slugs.{TenantsOk}
use schedule_appointments.Onboarding.Distinct
use schedule_appointments.Onboarding.Distinct.{perform, perform-TenantsOk}
use schedule_appointments.Onboarding.Verified.{Verifies, register_tenant-Verifies}
use schedule_appointments.Admin.Services as AdminServices
use schedule_appointments.Admin.Isolated
use schedule_appointments.Admin.Isolated.{perform-SameForeign}
use schedule_appointments.Examples.Data.{empty_db, now}

-- All that the onboarding computes with: a test that names this unfolds it.
unfoldable start : Unit {0}
unfolding strip lstrip is_space text_eq is_slug slugify decimal tenant_slug next_slug unique_slug
    same_status same_plan Tenant.register Tenant.verify Tenant.complete_onboarding Tenants.to_domain
    Tenants.get_by_id Tenants.slug_exists Tenants.email_exists Tenants.add Tenants.update
    Users.create_admin_user Users.issue_for Users.consume merge Business.create Hours.create
    Service.create get_templates Onboarding.resolve_slug Onboarding.register_tenant
    Onboarding.verify_email Wizard.wizard_slug Wizard.complete_wizard Businesses.slug_exists
    Businesses.add Services.add HourStore.upsert_many sort_on
start = tt

-- Letters outside ASCII are left out here, with their accents.
abbrev ascii_only : Text → Text
ascii_only [] = []
ascii_only (c ∷ s) = if leb c 127 then c ∷ ascii_only s else ascii_only s

abbrev plain : Unicode
plain = record {
  to_ascii = ascii_only;
  lower = map (λ c. if leb 65 c && leb c 90 then c + 32 else c);
}

slugify_test : slugify plain (codes "tenant") (codes "  Ana & Co. ") ≡ codes "ana-co"
unfolding start
slugify_test = refl

tenant_word_test : slugify plain (codes "tenant") (codes "¡!") ≡ codes "tenant"
unfolding start
tenant_word_test = refl

-- The pattern takes a newline at the end.
newline_test : tenant_slug (codes "ana" ++ 10 ∷ []) ≡ ok (codes "ana" ++ 10 ∷ [])
unfolding start
newline_test = refl

-- A name whose slug is cut after a dash.
abbrev long_name : Text
long_name = codes "aaaaaaaaaaaaaaaaaaaaaaaaaaaaaaaaaaaaaaaaaaaaaaa bbb"

long_name_test :
    unique_slug tenant_slug
      (λ _. false)
      (conflict no_slug_left)
      (slugify plain (codes "tenant") long_name)
    ≡ err (validation bad_slug)
unfolding start
long_name_test = refl

abbrev is_taken : Text → Bool
is_taken s = text_eq s (codes "ana") || text_eq s (codes "ana-2")

third_slug_test :
    unique_slug tenant_slug is_taken (conflict no_slug_left) (codes "ana") ≡ ok (codes "ana-3")
unfolding start
third_slug_test = refl

unique_slug-Ends_example :
    Ends tenant_slug is_taken
      (codes "ana")
      (conflict no_slug_left)
      (unique_slug tenant_slug is_taken (conflict no_slug_left) (codes "ana"))
unique_slug-Ends_example =
    unique_slug-Ends tenant_slug is_taken (codes "ana") (conflict no_slug_left)

tenant-IsWord : IsWord (codes "tenant")
tenant-IsWord = ((refl, (refl, (refl, (refl, (refl, (refl, tt)))))), refl, refl, omega arith)

is_slug-slugify_example :
    IsSlugged (slugify plain (codes "tenant") long_name)
    × (is_slug (slugify plain (codes "tenant") long_name)
        ≡ ends_alnum (slugify plain (codes "tenant") long_name))
    × (length (slugify plain (codes "tenant") long_name) < 48
        → is_slug (slugify plain (codes "tenant") long_name) ≡ true)
is_slug-slugify_example = is_slug-slugify plain (codes "tenant") long_name tenant-IsWord

abbrev drawn : Drawn
drawn = record { tenant_id = 1; user_id = 2; token = codes "tok" }

abbrev salon : RegisterTenantInput
salon = record {
  name = codes "Ana";
  admin_email = codes "Ana@x.bo";
  admin_password = codes "12345678";
  industry = codes "veterinarias";
  desired_slug = none;
}

abbrev hash : Text → Text
hash s = 36 ∷ s

abbrev registration : Result (RegisterTenantOutput × Db)
registration = Onboarding.register_tenant plain hash drawn now salon empty_db

abbrev db_of : {A : Type 0} → Result (A × Db) → Db
db_of (ok (_, d)) = d
db_of (err _) = empty_db

registration_test :
    registration
    ≡ ok (
      record { tenant_id = 1; slug = codes "ana"; verification_token = codes "tok" },
      db_of registration,
    )
unfolding start
registration_test = refl

-- The second registration of the same address is refused.
second_registration_test :
    Onboarding.register_tenant plain hash drawn now salon (db_of registration)
    ≡ err (conflict email_taken)
unfolding start
second_registration_test = refl

-- Under another address the name gets the slug with the suffix 2.
abbrev rival : RegisterTenantInput
rival = record salon { admin_email = codes "eva@x.bo" }

abbrev rival_drawn : Drawn
rival_drawn = record { tenant_id = 3; user_id = 4; token = codes "kot" }

abbrev slug_given : Result (RegisterTenantOutput × Db) → Text
slug_given (ok (o, _)) = o.slug
slug_given (err _) = []

rival_test :
    slug_given (Onboarding.register_tenant plain hash rival_drawn now rival (db_of registration))
    ≡ codes "ana-2"
unfolding start
rival_test = refl

abbrev verified_db : Db
verified_db = db_of (Onboarding.verify_email (now + 60_000_000) (codes "tok") (db_of registration))

abbrev wizard : CompleteWizardInput
wizard = record {
  business_name = codes "Ana Vet";
  phone = codes "700";
  timezone = codes "UTC";
  address = none;
}

abbrev wizard_run : Db → Result (CompleteWizardOutput × Db)
wizard_run =
    Wizard.complete_wizard plain 1 (now + 120_000_000) 20 (λ n. 30 + n) (λ n. 40 + n) wizard

abbrev answer_of : Result (CompleteWizardOutput × Db) → Option CompleteWizardOutput
answer_of (ok (o, _)) = some o
answer_of (err _) = none

wizard_test :
    answer_of (wizard_run verified_db)
    ≡ some (record {
      business_id = 20;
      business_slug = codes "ana-vet";
      tenant_status = active;
      services_created = 4;
    })
unfolding start
wizard_test = refl

-- The wizard waits for the verification.
early_wizard_test : wizard_run (db_of registration) ≡ err (business_rule wrong_status)
unfolding start
early_wizard_test = refl

register_tenant-Verifies_example :
    Ensures (Onboarding.register_tenant plain hash drawn now salon empty_db) (λ o d.
      Verifies
        (now + 3_600_000_000)
        o.verification_token
        (strip (plain.lower salon.admin_email))
        o.slug
        o.tenant_id
        d)
register_tenant-Verifies_example =
    register_tenant-Verifies plain hash drawn now (now + 3_600_000_000) salon empty_db (tt, tt, tt)
      tt tt tt (omega arith)

registration-TenantsOk : TenantsOk (db_of registration).tenants
unfolding start
registration-TenantsOk = ((refl, tt), (tt, tt), (tt, tt))

abbrev rival_call : Distinct.Call
rival_call = Distinct.register_tenant plain hash rival_drawn now rival

perform-TenantsOk_example :
    Ensures (perform rival_call (db_of registration)) (λ _ d. TenantsOk d.tenants)
unfolding start
perform-TenantsOk_example =
    perform-TenantsOk rival_call (db_of registration) ((λ e. omega arith), tt)
      registration-TenantsOk

-- A trial that expires, is paid, and is then cancelled.
abbrev calls : List Lifecycle.Call
calls =
    Lifecycle.verify now
    ∷ Lifecycle.complete_onboarding now
    ∷ Lifecycle.pull_events
    ∷ Lifecycle.mark_trial_expired (now + days 15)
    ∷ Lifecycle.change_plan pro (now + days 16)
    ∷ Lifecycle.cancel (codes "moved") (now + days 40)
    ∷ []

abbrev fresh_tenant : Tenant
fresh_tenant = record {
  id = 1;
  name = codes "Ana";
  slug = codes "ana";
  admin_email = codes "ana@x.bo";
  industry = codes "veterinarias";
  status = pending_verification;
  plan = trial;
  trial_ends_at = some (now + days 14);
  verified_at = none;
  onboarded_at = none;
  created_at = now;
  updated_at = now;
  pending_events =
      Tenant.tenant_registered (codes "Ana") (codes "ana@x.bo") (codes "veterinarias") ∷ [];
}

fresh_tenant-registered :
    Tenant.register plain 1 now
      (codes "Ana")
      (codes "ana")
      (codes "ana@x.bo")
      (codes "veterinarias")
    ≡ ok fresh_tenant
unfolding start
fresh_tenant-registered = refl

registered-Tells_example :
    Tells
      (record { status = pending_verification; plan = trial })
      (perform_all calls (record { published = []; tenant = fresh_tenant }))
registered-Tells_example =
    registered-Tells plain 1 now (codes "Ana") (codes "ana") (codes "ana@x.bo")
      (codes "veterinarias") fresh_tenant calls fresh_tenant-registered

-- Another tenant cannot hide the haircut.
foreign_delete_test :
    Isolated.perform 2 now (Isolated.delete_service 101) empty_db ≡ err (not_found no_service)
unfolding Services.delete merge AdminServices.delete_service
foreign_delete_test = refl

perform-SameForeign_example :
    Ensures
      (Isolated.perform 1 now (Isolated.delete_service 101) empty_db)
      (λ _. SameForeign 1 empty_db)
perform-SameForeign_example =
    perform-SameForeign 1 now (Isolated.delete_service 101) empty_db
      (tt, ((λ e. omega arith, tt), (tt, tt)), tt)
