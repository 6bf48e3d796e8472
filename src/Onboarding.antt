-- ===== src/Onboarding.antt =====
-- src/application/onboarding: the use cases that take a tenant from its registration to its first
-- business. The hash of a password and the network calls to Meta are arguments; the verification mail,
-- whose failure is only logged, is left out.
pub mod Templates
pub mod Wizard
pub mod Slugs
mod Kept
pub mod Distinct
pub mod Verified
use schedule_appointments.Base.{ℕ, Option, none, some, ltb, is_empty, length, if◌then◌else◌}
use schedule_appointments.Base.Text.{Text, codes, is_blank}
use schedule_appointments.Errors.{
  Result, ok, called, validation, conflict, empty_name, short_password, no_industry, email_taken,
  no_slug_left, no_tenant, bad_token,
}
use schedule_appointments.Slug.{Unicode, slugify, tenant_slug, unique_slug}
use schedule_appointments.Tenant
use schedule_appointments.Tenant.{Tenant}
use schedule_appointments.Business
use schedule_appointments.Business.{Business}
use schedule_appointments.Service
use schedule_appointments.Service.{Service}
use schedule_appointments.Hours
use schedule_appointments.Store.Tables.{
  ◌>>=◌, ◌>>◌, Db, Tx, pure, query, require, lift, modify, reject_if,
}
use schedule_appointments.Store.Tenants
use schedule_appointments.Store.Users
use schedule_appointments.Store.Businesses
use schedule_appointments.Store.Services
use schedule_appointments.Store.Hours as HourStore

pub record RegisterTenantInput : Type 0 where
  pub name : Text
  pub admin_email : Text
  pub admin_password : Text
  pub industry : Text
  pub desired_slug : Option Text

pub record RegisterTenantOutput : Type 0 where
  pub tenant_id : ℕ
  pub slug : Text
  pub verification_token : Text

-- `input_data.desired_slug or input_data.name`
abbrev pub slug_source : RegisterTenantInput → Text
slug_source i = elim i.desired_slug [ none ↦ i.name | some s ↦ if is_empty s then i.name else s ]

-- `_resolve_slug`
unfoldable pub resolve_slug : Unicode → Db → Text → Result Text
unfolding slugify unique_slug tenant_slug Tenants.slug_exists
resolve_slug u db candidate =
    unique_slug tenant_slug (Tenants.slug_exists db) (conflict no_slug_left)
      (slugify u (codes "tenant") candidate)

-- The ids that `uuid4` gives, and the token of `secrets.token_urlsafe`.
pub record Drawn : Type 0 where
  pub tenant_id : ℕ
  pub user_id : ℕ
  pub token : Text

unfoldable pub register_tenant :
    Unicode → (hash : Text → Text) → Drawn → ℕ → RegisterTenantInput → Tx RegisterTenantOutput
register_tenant u hash new now i = do
  reject_if (ltb (length i.admin_password) 8) (validation short_password)
  reject_if (is_blank i.name) (validation empty_name)
  reject_if (is_empty i.industry) (validation no_industry)
  exists ← query (Tenants.email_exists u i.admin_email)
  reject_if exists (conflict email_taken)
  slug ← lift (← query (λ db. resolve_slug u db (slug_source i)))
  t ← lift (Tenant.register u new.tenant_id now i.name slug i.admin_email i.industry)
  modify (Tenants.add t)
  modify (Users.create_admin_user new.user_id t.id i.admin_email (hash i.admin_password))
  modify (Users.issue_for new.token now t.id)
  pure (record { tenant_id = t.id; slug = slug; verification_token = new.token })

pub record VerifyEmailOutput : Type 0 where
  pub tenant_id : ℕ
  pub slug : Text
  pub admin_email : Text

-- Using the token up and the change of the tenant are one transaction of the session.
unfoldable pub verify_email : (now : ℕ) → Text → Tx VerifyEmailOutput
verify_email now token = do
  owner ← λ db. ok (Users.consume now token db)
  id ← require owner (validation bad_token)
  t ← require (← lift (← query (Tenants.get_by_id id))) (validation no_tenant)
  t' ← lift (called (Tenant.verify now t))
  modify (Tenants.update t')
  pure (record { tenant_id = t'.id; slug = t'.slug; admin_email = t'.admin_email })
