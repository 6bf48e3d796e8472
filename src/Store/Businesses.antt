-- ===== src/Store/Businesses.antt =====
-- src/infrastructure/persistence/repositories/business_repository.py
use schedule_appointments.Base.{
  ℕ, Bool, true, false, ◌&&◌, not, Option, none, some, List, [], ◌∷◌, ◌++◌, ◌==◌, first, any, keep,
  count, page,
}
use schedule_appointments.Base.Text.{Text, text_eq}
use schedule_appointments.Errors.{tenant_isolation, other_tenant}
use schedule_appointments.Business.{Business}
use schedule_appointments.Store.Tables.{◌>>◌, Db, Tx, pure, modify, reject_if}
use schedule_appointments.Store.Rows.{merge}

module _ (tenant : ℕ) where
  abbrev pub is_row : ℕ → Business → Bool
  is_row id b = b.id == id && b.tenant_id == tenant

  unfoldable pub get_by_id : ℕ → Db → Option Business
  get_by_id id db = first (is_row id) db.businesses

  unfoldable pub get_by_slug : Text → Db → Option Business
  get_by_slug slug db = first (λ b. text_eq b.slug slug && b.tenant_id == tenant) db.businesses

  -- The query names no order: the rows are here in the order in which they were added.
  unfoldable pub list_active : (offset limit : ℕ) → Db → List Business
  list_active offset limit db =
      page offset limit (keep (λ b. b.tenant_id == tenant && b.is_active) db.businesses)

  unfoldable pub count_active : Db → ℕ
  count_active db = count (λ b. b.tenant_id == tenant && b.is_active) db.businesses

  unfoldable pub slug_exists : Db → Text → Bool
  slug_exists db slug = any (λ b. text_eq b.slug slug && b.tenant_id == tenant) db.businesses

  unfoldable pub add : Business → Tx (Unit {0})
  add b = do
    reject_if (not (b.tenant_id == tenant)) (tenant_isolation other_tenant)
    modify (λ db. record db { businesses = db.businesses ++ b ∷ [] })

  unfoldable pub update : Business → Tx (Unit {0})
  unfolding merge
  update b = do
    reject_if (not (b.tenant_id == tenant)) (tenant_isolation other_tenant)
    modify (λ db. record db { businesses = merge (λ (b : Business). b.id) b db.businesses })

  -- A soft delete; the column `updated_at` is set to the database's clock.
  abbrev pub hidden : ℕ → Option Business → Tx Bool
  hidden now none = pure false
  hidden now (some b) = do
    modify (λ db. record db {
      businesses =
          merge (λ (b : Business). b.id) (record b { is_active = false; updated_at = now })
            db.businesses;
    })
    pure true

  unfoldable pub delete : (now : ℕ) → ℕ → Tx Bool
  unfolding get_by_id merge
  delete now id db = hidden now (get_by_id id db) db

-- The lookups of the webhooks go over all tenants.
abbrev has_value : Text → Option Text → Bool
has_value x none = false
has_value x (some y) = text_eq y x

unfoldable pub get_by_whatsapp_phone_number_id : Text → Db → Option Business
get_by_whatsapp_phone_number_id x db =
    first (λ b. has_value x b.whatsapp_phone_number_id && b.is_active) db.businesses

unfoldable pub get_by_facebook_page_id : Text → Db → Option Business
get_by_facebook_page_id x db =
    first (λ b. has_value x b.facebook_page_id && b.is_active) db.businesses

unfoldable pub get_by_instagram_account_id : Text → Db → Option Business
get_by_instagram_account_id x db =
    first (λ b. has_value x b.instagram_account_id && b.is_active) db.businesses
