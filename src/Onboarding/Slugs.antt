-- ===== src/Onboarding/Slugs.antt =====
-- The slugs of the tenants over registration, verification and the wizard.
use schedule_appointments.Base.{
  ◌≡◌, ◌≢◌, sym, ◌∙◌, subst, inl, inr, Bool, true, false, some, List, [], ◌∷◌, ◌++◌, first, any,
  All, All-map, All-append_one, All-first, Pairs, Pairs-append_one, Bool-cases,
}
use schedule_appointments.Base.Text.{Text, codes, text_eq, text_eq_refl}
use schedule_appointments.Errors.{
  ok, err, validation, conflict, ok-injective, bad_slug, no_slug_left,
}
use schedule_appointments.Slug.{Unicode, is_slug, tenant_slug, slugify}
use schedule_appointments.Slug.Free.{candidate, Ends, unique_slug-Ends, Ends-ok}
use schedule_appointments.Tenant.{Tenant}
use schedule_appointments.Store.Tables.{Db}
use schedule_appointments.Store.Rows.{
  Unique, merge, All-merge, Pairs-merge, Pairs-first, Unique-merge,
}
use schedule_appointments.Store.Tenants
use schedule_appointments.Onboarding.{resolve_slug}

-- Every stored slug is one that `TenantSlug` takes, so that its row can be read, and no two tenants
-- have the same slug or the same id.
abbrev pub TenantsOk : List Tenant → Type 0
TenantsOk ts =
    All (λ t. is_slug t.slug ≡ true) ts
    × Pairs (λ x y. x.slug ≢ y.slug) ts
    × Unique (λ (t : Tenant). t.id) ts

pub tenant_slug-eq-ok : (s t : Text) → tenant_slug s ≡ ok t → is_slug t ≡ true
unfolding tenant_slug
tenant_slug-eq-ok s t h = elim (Bool-cases (is_slug s)) [
  | inl e ↦ let k : ok s ≡ ok t = rw e at h in subst (λ x. is_slug x ≡ true) (ok-injective k) e
  | inr e ↦ let k : err (validation bad_slug) ≡ ok t = rw e at h in cc
]

others_slugs :
    (s : Text) (ts : List Tenant)
    → any (λ t. text_eq t.slug s) ts ≡ false
    → All (λ t. t.slug ≢ s) ts
others_slugs s [] h = tt
others_slugs s (t ∷ ts) h = elim (Bool-cases (text_eq t.slug s)) [
  | inl e ↦ let k : true ≡ false = rw e at h in cc
  | inr e ↦
      let k : any (λ t. text_eq t.slug s) ts ≡ false = rw e at h in
      (λ same. differs t.slug s same e, others_slugs s ts k)
]
  where
    differs : (x y : Text) → x ≡ y → text_eq x y ≡ false → ⊥
    differs x y same e = clash (sym (subst (λ z. text_eq x z ≡ true) same (text_eq_refl x)) ∙ e)
      where
        clash : true ≡ false → ⊥
        clash e = cc

pub resolve_slug-free :
    (u : Unicode) (db : Db) (s slug : Text)
    → resolve_slug u db s ≡ ok slug
    → (is_slug slug ≡ true) × All (λ t. t.slug ≢ slug) db.tenants
unfolding resolve_slug Tenants.slug_exists
resolve_slug-free u db s slug h =
    let base = slugify u (codes "tenant") s in
    let ends = unique_slug-Ends tenant_slug (Tenants.slug_exists db) base (conflict no_slug_left) in
    let (k, made, free) =
      Ends-ok tenant_slug (Tenants.slug_exists db) base (conflict no_slug_left)
        (subst (Ends tenant_slug (Tenants.slug_exists db) base (conflict no_slug_left)) h ends) in
    (tenant_slug-eq-ok (candidate base k) slug made, others_slugs slug db.tenants free)

pub add-TenantsOk :
    (t : Tenant) (ts : List Tenant)
    → TenantsOk ts
    → is_slug t.slug ≡ true
    → All (λ x. x.slug ≢ t.slug) ts
    → All (λ x. x.id ≢ t.id) ts
    → TenantsOk (ts ++ Tenants.to_row t ∷ [])
add-TenantsOk t ts (valid, apart, keys) v a k = (
  All-append_one (λ t. is_slug t.slug ≡ true) (Tenants.to_row t) ts valid v,
  Pairs-append_one (λ x y. x.slug ≢ y.slug) (Tenants.to_row t) ts apart a,
  Pairs-append_one (λ x y. y.id ≢ x.id) (Tenants.to_row t) ts keys
      (All-map ts (λ x n e. n (sym e)) k),
)

pub update-TenantsOk :
    (t c : Tenant) (p : Tenant → Bool) (ts : List Tenant)
    → TenantsOk ts
    → first p ts ≡ some c
    → t.id ≡ c.id
    → t.slug ≡ c.slug
    → TenantsOk (merge (λ (t : Tenant). t.id) (Tenants.to_row t) ts)
update-TenantsOk t c p ts (valid, apart, keys) f same_id same_slug =
    let others =
      Pairs-first (λ (t : Tenant). t.id) (λ x y. x.slug ≢ y.slug) p c ts (λ x y n e. n (sym e))
        apart f in
    (
      All-merge (λ (t : Tenant). t.id) (λ t. is_slug t.slug ≡ true) (Tenants.to_row t) ts valid
          (subst (λ s. is_slug s ≡ true) (sym same_slug)
            (All-first (λ t. is_slug t.slug ≡ true) p ts f valid).0),
      Pairs-merge (λ (t : Tenant). t.id) (λ x y. x.slug ≢ y.slug) (Tenants.to_row t) ts keys apart
          (All-map ts
            (λ x n k.
              let d = n (λ e. k (e ∙ sym same_id)) in
              (λ e. d (e ∙ same_slug), λ e. d (sym e ∙ same_slug)))
            others),
      Unique-merge (λ (t : Tenant). t.id) (Tenants.to_row t) ts keys,
    )
