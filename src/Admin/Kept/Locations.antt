-- ===== src/Admin/Kept/Locations.antt =====
-- The use cases of src/application/business leave the rows of other tenants as they are.
use schedule_appointments.Base.{ℕ, refl, not, Option, none}
use schedule_appointments.Base.Text.{Text, is_blank}
use schedule_appointments.Errors.{
  called, validation, not_found, empty_name, empty_phone, empty_slug, no_business,
}
use schedule_appointments.Slug.{Unicode}
use schedule_appointments.Business
use schedule_appointments.Business.{Business}
use schedule_appointments.Store.Tables.{Db}
use schedule_appointments.Store.Ensures.{
  Ensures-bind, Ensures-lift, Ensures-require, Ensures-reject_if,
}
use schedule_appointments.Store.Businesses as BusinessStore
use schedule_appointments.Store.Foreign
use schedule_appointments.Store.Foreign.{KeysUnique, SameForeign}
use schedule_appointments.Admin.Businesses
use schedule_appointments.Admin.Businesses.{
  is_blank_slug, asked_slug, CreateBusinessInput, ChannelsInput, is_given_blank,
}
use schedule_appointments.Admin.Kept.{Keeps, update_business-id, put_back_business}

module _ (tenant : ℕ) where
  pub create_business-Keeps :
      (u : Unicode) (now new_id : ℕ) (i : CreateBusinessInput) (db : Db)
      → Keeps tenant db (Businesses.create_business u tenant now new_id i db)
  unfolding Businesses.create_business
  create_business-Keeps u now new_id i db =
      Ensures-reject_if (is_blank i.name) (validation empty_name) _ db _ λ _.
        Ensures-reject_if (is_blank i.phone) (validation empty_phone) _ db _ λ _.
          Ensures-reject_if (is_blank_slug i.slug) (validation empty_slug) _ db _ λ _.
            Ensures-lift (Businesses.free_slug tenant db (asked_slug u i)) _ db _ λ slug e.
              Ensures-lift (Business.create u new_id now (Businesses.draft_of tenant slug i)) _ db _
                λ b e.
                  Ensures-bind (BusinessStore.add tenant b) _ db (λ _. SameForeign tenant db) _
                    (Foreign.add_business tenant b db) (λ _ _ k. k)

  pub update_business-Keeps :
      (now id : ℕ) (c : Business.Changes) (db : Db)
      → KeysUnique db
      → Keeps tenant db (Businesses.update_business tenant now id c db)
  unfolding Businesses.update_business
  update_business-Keeps now id c db u =
      Ensures-reject_if (is_given_blank c.name) (validation empty_name) _ db _ λ _.
        Ensures-reject_if (is_given_blank c.phone) (validation empty_phone) _ db _ λ _.
          Ensures-require (BusinessStore.get_by_id tenant id db) (not_found no_business) _ db _
            λ found f. Ensures-lift (called (Business.update c now found)) _ db _ λ b e.
              Ensures-bind (BusinessStore.update tenant b) _ db (λ _. SameForeign tenant db) _
                (put_back_business tenant id b db u f (update_business-id c now found e))
                (λ _ _ k. k)

  pub update_business_channels-Keeps :
      (now id : ℕ) (i : ChannelsInput) (db : Db)
      → KeysUnique db
      → Keeps tenant db (Businesses.update_business_channels tenant now id i db)
  unfolding Businesses.update_business_channels Business.configure_social_channels
  update_business_channels-Keeps now id i db u =
      Ensures-require (BusinessStore.get_by_id tenant id db) (not_found no_business) _ db _
        λ found f.
          let b =
            Business.configure_social_channels i.facebook_page_id i.facebook_page_access_token
              i.instagram_account_id i.meta_app_secret now found in
          Ensures-bind (BusinessStore.update tenant b) _ db (λ _. SameForeign tenant db) _
            (put_back_business tenant id b db u f refl) (λ _ _ k. k)

  pub update_business_whatsapp-Keeps :
      (now id : ℕ) (p s o : Option Text) (db : Db)
      → KeysUnique db
      → Keeps tenant db (Businesses.update_business_whatsapp tenant now id p s o db)
  unfolding Businesses.update_business_whatsapp Business.configure_whatsapp
  update_business_whatsapp-Keeps now id p s o db u =
      Ensures-require (BusinessStore.get_by_id tenant id db) (not_found no_business) _ db _
        λ found f.
          let b = Business.configure_whatsapp p s o none none now found in
          Ensures-bind (BusinessStore.update tenant b) _ db (λ _. SameForeign tenant db) _
            (put_back_business tenant id b db u f refl) (λ _ _ k. k)

  pub delete_business-Keeps :
      (now id : ℕ) (db : Db)
      → KeysUnique db
      → Keeps tenant db (Businesses.delete_business tenant now id db)
  unfolding Businesses.delete_business
  delete_business-Keeps now id db u =
      Ensures-bind (BusinessStore.delete tenant now id) _ db (λ _. SameForeign tenant db) _
        (Foreign.delete_business tenant now id db u)
        λ deleted d k. Ensures-reject_if (not deleted) (not_found no_business) _ d _ λ _. k
