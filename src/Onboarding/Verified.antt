-- ===== src/Onboarding/Verified.antt =====
-- A registered tenant can be verified with the token that the registration issued.
use schedule_appointments.Base.{
  ℕ, ◌+◌, ◌*◌, ◌≤◌, ◌≡◌, ◌≢◌, refl, sym, ◌∙◌, subst, ap, Bool, true, false, ◌&&◌, Option, none,
  some, List, [], ◌∷◌, ◌++◌, arith, ◌==◌, ==_refl, ==_false, first, All, All-map, map, ltb, length,
  is_empty, if◌then◌else◌, first-append_none,
}
use schedule_appointments.Base.Text.{Text, strip, is_blank, text_eq_refl}
use schedule_appointments.Errors.{
  Result, ok, called, validation, conflict, short_password, empty_name, no_industry, email_taken,
}
use schedule_appointments.Slug.{Unicode, is_slug, tenant_slug}
use schedule_appointments.Tenant
use schedule_appointments.Tenant.{Tenant, pending_verification, onboarding}
use schedule_appointments.Identity.{User, admin}
use schedule_appointments.Store.Tables.{Db}
use schedule_appointments.Store.Rows.{first-merge}
use schedule_appointments.Store.Ensures.{Ensures, Ensures-lift, Ensures-reject_if}
use schedule_appointments.Store.Tenants
use schedule_appointments.Store.Users
use schedule_appointments.Onboarding
use schedule_appointments.Onboarding.{
  Drawn, RegisterTenantInput, VerifyEmailOutput, resolve_slug, slug_source,
}
use schedule_appointments.Onboarding.Slugs.{TenantsOk, resolve_slug-free, add-TenantsOk}
use schedule_appointments.Onboarding.Kept.{consume-tenants}

module _ {ℓ} {A : Type ℓ} where
  first-none : (p : A → Bool) (xs : List A) → All (λ x. p x ≡ false) xs → first p xs ≡ none
  first-none p [] h = refl
  first-none p (x ∷ xs) h = rw h.0 (first-none p xs h.1)

  -- Only the last of the rows passes the test.
  map_if-append_one :
      (p : A → Bool) (f : A → A) (a : A) (xs : List A)
      → All (λ x. p x ≡ false) xs
      → p a ≡ true
      → map (λ x. if p x then f x else x) (xs ++ a ∷ []) ≡ xs ++ f a ∷ []
  map_if-append_one p f a [] h t = rw t refl
  map_if-append_one p f a (x ∷ xs) h t =
      rw h.0 (ap (λ ys. x ∷ ys) (map_if-append_one p f a xs h.1 t))

verify-pending :
    (now : ℕ) (t : Tenant)
    → t.status ≡ pending_verification
    → called (Tenant.verify now t) ≡ ok (Tenant.verify now t).1
unfolding Tenant.verify Tenant.same_status
verify-pending now t h = ground arith

verified-fields :
    (now : ℕ) (t : Tenant)
    → t.status ≡ pending_verification
    → ((Tenant.verify now t).1.status ≡ onboarding)
      × ((Tenant.verify now t).1.id ≡ t.id)
      × ((Tenant.verify now t).1.slug ≡ t.slug)
      × ((Tenant.verify now t).1.admin_email ≡ t.admin_email)
unfolding Tenant.verify Tenant.same_status
verified-fields now t h = ground arith

verify_email-ready :
    (now : ℕ) (token : Text) (d d' : Db) (id : ℕ) (t : Tenant)
    → Users.consume now token d ≡ (some id, d')
    → Tenants.get_by_id id d' ≡ ok (some t)
    → t.status ≡ pending_verification
    → Onboarding.verify_email now token d
      ≡ ok (
        record {
          tenant_id = (Tenant.verify now t).1.id;
          slug = (Tenant.verify now t).1.slug;
          admin_email = (Tenant.verify now t).1.admin_email;
        },
        Tenants.update (Tenant.verify now t).1 d',
      )
unfolding Onboarding.verify_email
verify_email-ready now token d d' id t c g p = rw (c, g, verify-pending now t p) refl

to_domain-valid : (t : Tenant) → is_slug t.slug ≡ true → Tenants.to_domain (some t) ≡ ok (some t)
unfolding Tenants.to_domain tenant_slug
to_domain-valid t h = rw h refl

register-fields :
    (u : Unicode) (new_id now : ℕ) (name slug email industry : Text) (t : Tenant)
    → Tenant.register u new_id now name slug email industry ≡ ok t
    → (t.id ≡ new_id)
      × (t.slug ≡ slug)
      × (t.admin_email ≡ strip (u.lower email))
      × (t.status ≡ pending_verification)
unfolding Tenant.register
register-fields u new_id now name slug email industry t h = ground arith

consume-first :
    (now end : ℕ) (token : Text) (d : Db) (u : User)
    → first (Users.has_token token) d.users ≡ some u
    → u.verification_token_expires_at ≡ some end
    → ltb end now ≡ false
    → (Users.consume now token d).0 ≡ some u.tenant_id
unfolding Users.consume
consume-first now end token d u f e l = rw f (used_up u.verification_token_expires_at e)
  where
    used_up : (o : Option ℕ) → o ≡ some end → (Users.use_up now d u o).0 ≡ some u.tenant_id
    used_up o e = rw (e, l) refl

-- The database that a registration leaves behind.
abbrev registered : Drawn → (now : ℕ) → (email hashed : Text) → Tenant → Db → Db
registered new now email hashed t db =
    Users.issue_for new.token now t.id
      (Users.create_admin_user new.user_id t.id email hashed (Tenants.add t db))

-- The user that the registration leaves behind.
abbrev registered_user : Drawn → (now : ℕ) → (email hashed : Text) → ℕ → User
registered_user new now email hashed id = record {
  id = new.user_id;
  tenant_id = id;
  email = email;
  password_hash = hashed;
  role = admin;
  email_verified = false;
  verification_token = some new.token;
  verification_token_expires_at = some (now + 24 * 3_600_000_000);
  last_login_at = none;
  is_active = true;
}

registered-users :
    (new : Drawn) (now : ℕ) (email hashed : Text) (t : Tenant) (db : Db)
    → All (λ (x : User). x.tenant_id ≢ t.id) db.users
    → (registered new now email hashed t db).users
      ≡ db.users ++ registered_user new now email hashed t.id ∷ []
unfolding Users.issue_for Users.create_admin_user Tenants.add
registered-users new now email hashed t db h =
    map_if-append_one (λ (x : User). x.tenant_id == t.id && (Users.is_admin x.role && x.is_active))
      _ _ db.users (All-map db.users (λ (x : User) n. rw (==_false x.tenant_id t.id n) refl) h)
      (rw (==_refl t.id) refl)

registered-consume :
    (new : Drawn) (now later : ℕ) (email hashed : Text) (t : Tenant) (db : Db)
    → All (λ (x : User). x.tenant_id ≢ t.id) db.users
    → All (λ (x : User). Users.has_token new.token x ≡ false) db.users
    → later ≤ now + 24 * 3_600_000_000
    → (Users.consume later new.token (registered new now email hashed t db)).0 ≡ some t.id
registered-consume new now later email hashed t db h k le =
    consume-first later (now + 24 * 3_600_000_000) new.token (registered new now email hashed t db)
      (registered_user new now email hashed t.id)
      (ap (first (Users.has_token new.token)) (registered-users new now email hashed t db h)
        ∙ first-append_none (Users.has_token new.token) (registered_user new now email hashed t.id)
            db.users (first-none (Users.has_token new.token) db.users k) (text_eq_refl new.token))
      refl (ground (arith, le))

get_by_id-first :
    (id : ℕ) (d : Db) (t : Tenant)
    → first (λ x. x.id == id) d.tenants ≡ some t
    → is_slug t.slug ≡ true
    → Tenants.get_by_id id d ≡ ok (some t)
unfolding Tenants.get_by_id
get_by_id-first id d t f v = ap Tenants.to_domain f ∙ to_domain-valid t v

abbrev answered : (id : ℕ) (slug email : Text) → Db → Result (VerifyEmailOutput × Db)
answered id slug email d = ok (record { tenant_id = id; slug = slug; admin_email = email }, d)

-- A token can be used up: the tenant that gets the answer is being onboarded.
abbrev pub Verifies : (later : ℕ) (token email slug : Text) (id : ℕ) → Db → Type 0
Verifies later token email slug id d =
    (d' : Db) × (Onboarding.verify_email later token d
      ≡ ok (record { tenant_id = id; slug = slug; admin_email = email }, d'))
    × (t : Tenant) × (Tenants.get_by_id id d' ≡ ok (some t))
    × (t.status ≡ onboarding)

-- A row of the tenants that waits for its verification.
row-Verifies :
    (later : ℕ) (token : Text) (d : Db) (t : Tenant)
    → TenantsOk d.tenants
    → (Users.consume later token d).0 ≡ some t.id
    → first (λ x. x.id == t.id) d.tenants ≡ some t
    → is_slug t.slug ≡ true
    → t.status ≡ pending_verification
    → Verifies later token t.admin_email t.slug t.id d
unfolding Tenants.update
row-Verifies later token d t h c f v p =
    let d' = (Users.consume later token d).1 in
    let v' = (Tenant.verify later t).1 in
    let (on, same_id, same_slug, same_email) = verified-fields later t p in
    let same = consume-tenants later token d in
    let found : first (λ x. x.id == t.id) d'.tenants ≡ some t =
      ap (first (λ x. x.id == t.id)) same ∙ f in
    let keys = subst TenantsOk (sym same) h in
    (
      Tenants.update v' d',
      verify_email-ready later token d d' t.id t (ap (λ o. (o, d')) c)
            (get_by_id-first t.id d' t found v) p
          ∙ answer v' d' same_id same_slug same_email,
      Tenants.to_row v',
      get_by_id-first t.id (Tenants.update v' d') (Tenants.to_row v')
          (first-merge (λ (x : Tenant). x.id) (λ x. x.id == t.id) (Tenants.to_row v') t d'.tenants
            keys.2 found (sym same_id)
            (subst (λ k. (k == t.id) ≡ true) (sym same_id) (==_refl t.id)))
          (subst (λ s. is_slug s ≡ true) (sym same_slug) v),
      on,
    )
  where
    answer :
        (w : Tenant) (d' : Db)
        → w.id ≡ t.id
        → w.slug ≡ t.slug
        → w.admin_email ≡ t.admin_email
        → answered w.id w.slug w.admin_email (Tenants.update w d')
          ≡ answered t.id t.slug t.admin_email (Tenants.update w d')
    answer w d' a b c =
        ap (λ k. answered k w.slug w.admin_email (Tenants.update w d')) a
        ∙ (ap (λ k. answered t.id k w.admin_email (Tenants.update w d')) b
            ∙ ap (λ k. answered t.id t.slug k (Tenants.update w d')) c)

-- A registration that succeeds issues a token with which the tenant can be verified: until 24 hours
-- later, verifying with it succeeds, answers with the tenant's id, slug and address, and leaves a tenant
-- that can be read and is being onboarded. The table of tenants is in order before, and the ids and the
-- token that are drawn are new.
pub register_tenant-Verifies :
    (u : Unicode) (hash : Text → Text) (new : Drawn) (now later : ℕ) (i : RegisterTenantInput)
    (db : Db)
    → TenantsOk db.tenants
    → All (λ (t : Tenant). t.id ≢ new.tenant_id) db.tenants
    → All (λ (x : User). x.tenant_id ≢ new.tenant_id) db.users
    → All (λ (x : User). Users.has_token new.token x ≡ false) db.users
    → later ≤ now + 24 * 3_600_000_000
    → Ensures (Onboarding.register_tenant u hash new now i db) (λ o d.
      Verifies later o.verification_token (strip (u.lower i.admin_email)) o.slug o.tenant_id d)
unfolding Onboarding.register_tenant Tenants.add Users.create_admin_user Users.issue_for
register_tenant-Verifies u hash new now later i db h fresh owners tokens le =
    Ensures-reject_if (ltb (length i.admin_password) 8) (validation short_password) _ db _ λ _.
      Ensures-reject_if (is_blank i.name) (validation empty_name) _ db _ λ _.
        Ensures-reject_if (is_empty i.industry) (validation no_industry) _ db _ λ _.
          Ensures-reject_if (Tenants.email_exists u i.admin_email db) (conflict email_taken) _ db _
            λ _. Ensures-lift (resolve_slug u db (slug_source i)) _ db _ λ slug e.
              Ensures-lift
                (Tenant.register u new.tenant_id now i.name slug i.admin_email i.industry) _ db _
                λ t r.
                  added t slug (resolve_slug-free u db (slug_source i) slug e)
                    (register-fields u new.tenant_id now i.name slug i.admin_email i.industry t r)
  where
    added :
        (t : Tenant) (slug : Text)
        → (is_slug slug ≡ true) × All (λ (x : Tenant). x.slug ≢ slug) db.tenants
        → (t.id ≡ new.tenant_id)
          × (t.slug ≡ slug)
          × (t.admin_email ≡ strip (u.lower i.admin_email))
          × (t.status ≡ pending_verification)
        → Verifies later new.token
            (strip (u.lower i.admin_email))
            slug
            t.id
            (registered new now i.admin_email (hash i.admin_password) t db)
    added t slug (valid, free) (same_id, same_slug, same_email, waits) =
        let d = registered new now i.admin_email (hash i.admin_password) t db in
        let v = subst (λ s. is_slug s ≡ true) (sym same_slug) valid in
        let new_id = subst (λ k. All (λ (x : Tenant). x.id ≢ k) db.tenants) (sym same_id) fresh in
        let apart = subst (λ s. All (λ (x : Tenant). x.slug ≢ s) db.tenants) (sym same_slug) free in
        let no_owner =
          subst (λ k. All (λ (x : User). x.tenant_id ≢ k) db.users) (sym same_id) owners in
        let none_before =
          first-none (λ (x : Tenant). x.id == t.id) db.tenants
            (All-map db.tenants (λ (x : Tenant) n. ==_false x.id t.id n) new_id) in
        subst (λ s. Verifies later new.token (strip (u.lower i.admin_email)) s t.id d) same_slug
          (subst (λ m. Verifies later new.token m t.slug t.id d) same_email
            (row-Verifies later new.token d (Tenants.to_row t)
              (add-TenantsOk t db.tenants h v apart new_id)
              (registered-consume new now later i.admin_email (hash i.admin_password) t db no_owner
                tokens le)
              (first-append_none (λ (x : Tenant). x.id == t.id) (Tenants.to_row t) db.tenants
                none_before (==_refl t.id))
              v waits))
