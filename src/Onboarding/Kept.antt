-- ===== src/Onboarding/Kept.antt =====
-- Registration and verification keep the table of tenants in order.
use schedule_appointments.Base.{
  ℕ, ◌≡◌, ◌≢◌, refl, sym, ◌∙◌, subst, ap, inl, inr, true, Option, none, some, [], ◌∷◌, ◌++◌, arith,
  ◌==◌, first, All, Bool-cases, is_empty, ltb, length,
}
use schedule_appointments.Base.Text.{Text, is_blank}
use schedule_appointments.Errors.{
  Result, ok, err, called, validation, conflict, short_password, empty_name, no_industry,
  email_taken, no_tenant, bad_token, bad_slug,
}
use schedule_appointments.Slug.{Unicode, is_slug, tenant_slug}
use schedule_appointments.Tenant
use schedule_appointments.Tenant.{Tenant}
use schedule_appointments.Identity.{User}
use schedule_appointments.Store.Tables.{Db}
use schedule_appointments.Store.Ensures.{Ensures, Ensures-lift, Ensures-require, Ensures-reject_if}
use schedule_appointments.Store.Tenants
use schedule_appointments.Store.Users
use schedule_appointments.Onboarding
use schedule_appointments.Onboarding.{Drawn, RegisterTenantInput, resolve_slug, slug_source}
use schedule_appointments.Onboarding.Slugs.{
  TenantsOk, resolve_slug-free, add-TenantsOk, update-TenantsOk,
}

pub register-eq-ok :
    (u : Unicode) (new_id now : ℕ) (name slug email industry : Text) (t : Tenant)
    → Tenant.register u new_id now name slug email industry ≡ ok t
    → (t.id ≡ new_id) × (t.slug ≡ slug)
unfolding Tenant.register
register-eq-ok u new_id now name slug email industry t h = ground arith

pub verify-eq-ok :
    (now : ℕ) (t t' : Tenant)
    → called (Tenant.verify now t) ≡ ok t'
    → (t'.id ≡ t.id) × (t'.slug ≡ t.slug)
unfolding Tenant.verify
verify-eq-ok now t t' h = ground arith

pub complete_onboarding-eq-ok :
    (now : ℕ) (t t' : Tenant)
    → called (Tenant.complete_onboarding now t) ≡ ok t'
    → (t'.id ≡ t.id) × (t'.slug ≡ t.slug)
unfolding Tenant.complete_onboarding
complete_onboarding-eq-ok now t t' h = ground arith

-- A tenant as it is read, with the row that it was read from.
abbrev IsReadFrom : ℕ → Db → Tenant → Type 0
IsReadFrom id db t =
    (c : Tenant) × (first (λ t. t.id == id) db.tenants ≡ some c) × (t.id ≡ c.id) × (t.slug ≡ c.slug)

to_domain-same :
    (c t : Tenant) → Tenants.to_domain (some c) ≡ ok (some t) → (t.id ≡ c.id) × (t.slug ≡ c.slug)
unfolding Tenants.to_domain tenant_slug
to_domain-same c t h = elim (Bool-cases (is_slug c.slug)) [
  | inl e ↦
      let k : ok (some (record c { slug = c.slug })) ≡ ok (some t) = rw e at h in
      (ap id_of (sym k), ap slug_of (sym k))
  | inr e ↦ let k : err (validation bad_slug) ≡ ok (some t) = rw e at h in absurd (fails k)
]
  where
    id_of : Result (Option Tenant) → ℕ
    id_of (ok (some x)) = x.id
    id_of _ = c.id

    slug_of : Result (Option Tenant) → Text
    slug_of (ok (some x)) = x.slug
    slug_of _ = c.slug

    fails : err (validation bad_slug) ≡ ok (some t) → ⊥
    fails k = cc

to_domain-none : (t : Tenant) → Tenants.to_domain none ≡ ok (some t) → ⊥
unfolding Tenants.to_domain
to_domain-none t h = cc

get_by_id-IsReadFrom :
    (id : ℕ) (db : Db) (t : Tenant) → Tenants.get_by_id id db ≡ ok (some t) → IsReadFrom id db t
unfolding Tenants.get_by_id
get_by_id-IsReadFrom id db t h = read (first (λ t. t.id == id) db.tenants) refl h
  where
    read :
        (o : Option Tenant)
        → first (λ t. t.id == id) db.tenants ≡ o
        → Tenants.to_domain o ≡ ok (some t)
        → IsReadFrom id db t
    read none e h = absurd (to_domain-none t h)
    read (some c) e h = let same = to_domain-same c t h in (c, e, same.0, same.1)

pub register_tenant-TenantsOk :
    (u : Unicode) (hash : Text → Text) (new : Drawn) (now : ℕ) (i : RegisterTenantInput) (db : Db)
    → All (λ (t : Tenant). t.id ≢ new.tenant_id) db.tenants
    → TenantsOk db.tenants
    → Ensures (Onboarding.register_tenant u hash new now i db) (λ _ d. TenantsOk d.tenants)
unfolding Onboarding.register_tenant Tenants.add Users.create_admin_user Users.issue_for
register_tenant-TenantsOk u hash new now i db fresh h =
    Ensures-reject_if (ltb (length i.admin_password) 8) (validation short_password) _ db _ λ _.
      Ensures-reject_if (is_blank i.name) (validation empty_name) _ db _ λ _.
        Ensures-reject_if (is_empty i.industry) (validation no_industry) _ db _ λ _.
          Ensures-reject_if (Tenants.email_exists u i.admin_email db) (conflict email_taken) _ db _
            λ _. Ensures-lift (resolve_slug u db (slug_source i)) _ db _ λ slug e.
              Ensures-lift
                (Tenant.register u new.tenant_id now i.name slug i.admin_email i.industry) _ db _
                λ t r.
                  registered t slug (resolve_slug-free u db (slug_source i) slug e)
                    (register-eq-ok u new.tenant_id now i.name slug i.admin_email i.industry t r)
  where
    registered :
        (t : Tenant) (slug : Text)
        → (is_slug slug ≡ true) × All (λ (x : Tenant). x.slug ≢ slug) db.tenants
        → (t.id ≡ new.tenant_id) × (t.slug ≡ slug)
        → TenantsOk (db.tenants ++ Tenants.to_row t ∷ [])
    registered t slug (valid, free) (same_id, same_slug) =
        add-TenantsOk t db.tenants h (subst (λ s. is_slug s ≡ true) (sym same_slug) valid)
          (subst (λ s. All (λ (x : Tenant). x.slug ≢ s) db.tenants) (sym same_slug) free)
          (subst (λ k. All (λ (x : Tenant). x.id ≢ k) db.tenants) (sym same_id) fresh)

-- Writing back a tenant that was read, after a method that keeps its id and slug.
pub put_back-TenantsOk :
    (id : ℕ) (t t' : Tenant) (db : Db)
    → TenantsOk db.tenants
    → Tenants.get_by_id id db ≡ ok (some t)
    → (t'.id ≡ t.id) × (t'.slug ≡ t.slug)
    → TenantsOk (Tenants.update t' db).tenants
unfolding Tenants.update
put_back-TenantsOk id t t' db h r (same_id, same_slug) =
    let (c, f, c_id, c_slug) = get_by_id-IsReadFrom id db t r in
    update-TenantsOk t' c (λ x. x.id == id) db.tenants h f (same_id ∙ c_id) (same_slug ∙ c_slug)

use_up-tenants :
    (now : ℕ) (db : Db) (u : User) (o : Option ℕ) → (Users.use_up now db u o).1.tenants ≡ db.tenants
use_up-tenants now db u none = refl
use_up-tenants now db u (some end) = elim (Bool-cases (ltb end now)) [
  | inl e ↦ rw e refl
  | inr e ↦ rw e refl
]

use_up_of-tenants :
    (now : ℕ) (db : Db) (o : Option User) → (Users.use_up_of now db o).1.tenants ≡ db.tenants
use_up_of-tenants now db none = refl
use_up_of-tenants now db (some u) = use_up-tenants now db u u.verification_token_expires_at

pub consume-tenants :
    (now : ℕ) (token : Text) (db : Db) → (Users.consume now token db).1.tenants ≡ db.tenants
unfolding Users.consume
consume-tenants now token db = use_up_of-tenants now db (first (Users.has_token token) db.users)

pub verify_email-TenantsOk :
    (now : ℕ) (token : Text) (db : Db)
    → TenantsOk db.tenants
    → Ensures (Onboarding.verify_email now token db) (λ _ d. TenantsOk d.tenants)
unfolding Onboarding.verify_email
verify_email-TenantsOk now token db h =
    let db' = (Users.consume now token db).1 in
    let h' = subst TenantsOk (sym (consume-tenants now token db)) h in
    Ensures-require (Users.consume now token db).0 (validation bad_token) _ db' _ λ id _.
      Ensures-lift (Tenants.get_by_id id db') _ db' _ λ o r.
        Ensures-require o (validation no_tenant) _ db' _ λ t f.
          Ensures-lift (called (Tenant.verify now t)) _ db' _
            λ t' v. put_back-TenantsOk id t t' db' h' (r ∙ ap ok f) (verify-eq-ok now t t' v)
