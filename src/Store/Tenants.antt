-- ===== src/Store/Tenants.antt =====
-- src/infrastructure/persistence/repositories/tenant_repository.py, and mappers/tenant_mapper.py, by
-- which events are not stored and a slug is validated again where a row is read. The column `slug`
-- is unique in models/tenants.py: a second row with a slug, which the use cases never add, is not
-- refused here.
use schedule_appointments.Base.{ℕ, Bool, Option, none, some, [], ◌∷◌, ◌++◌, ◌==◌, first, any}
use schedule_appointments.Base.Text.{Text, text_eq}
use schedule_appointments.Errors.{Result, ok, then_try}
use schedule_appointments.Slug.{Unicode, tenant_slug}
use schedule_appointments.Tenant.{Tenant}
use schedule_appointments.Store.Tables.{Db}
use schedule_appointments.Store.Rows.{merge}

-- `TenantMapper.fromPersistence`
abbrev pub to_row : Tenant → Tenant
to_row t = record t { pending_events = [] }

-- `TenantMapper.toPersistence`
unfoldable pub to_domain : Option Tenant → Result (Option Tenant)
to_domain none = ok none
to_domain (some t) = then_try (tenant_slug t.slug) λ s. ok (some (record t { slug = s }))

unfoldable pub get_by_id : ℕ → Db → Result (Option Tenant)
unfolding to_domain
get_by_id id db = to_domain (first (λ t. t.id == id) db.tenants)

unfoldable pub get_by_slug : Text → Db → Result (Option Tenant)
unfolding to_domain
get_by_slug slug db = to_domain (first (λ t. text_eq t.slug slug) db.tenants)

unfoldable pub get_by_admin_email : Unicode → Text → Db → Result (Option Tenant)
unfolding to_domain
get_by_admin_email u email db =
    to_domain (first (λ t. text_eq t.admin_email (u.lower email)) db.tenants)

unfoldable pub slug_exists : Db → Text → Bool
slug_exists db slug = any (λ t. text_eq t.slug slug) db.tenants

unfoldable pub email_exists : Unicode → Text → Db → Bool
email_exists u email db = any (λ t. text_eq t.admin_email (u.lower email)) db.tenants

unfoldable pub add : Tenant → Db → Db
add t db = record db { tenants = db.tenants ++ to_row t ∷ [] }

unfoldable pub update : Tenant → Db → Db
unfolding merge
update t db = record db { tenants = merge (λ (t : Tenant). t.id) (to_row t) db.tenants }
