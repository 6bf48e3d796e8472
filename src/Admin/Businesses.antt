-- ===== src/Admin/Businesses.antt =====
-- src/application/business: the use cases that create, change, hide and list businesses.
use schedule_appointments.Base.{
  ℕ, Bool, false, ◌&&◌, not, Option, none, some, List, map, is_empty, if◌then◌else◌,
}
use schedule_appointments.Base.Int.{ℤ}
use schedule_appointments.Base.Text.{Text, codes, is_blank}
use schedule_appointments.Errors.{
  Result, ok, called, validation, conflict, not_found, empty_name, empty_phone, empty_slug,
  no_slug_left, no_business,
}
use schedule_appointments.Slug.{Unicode, slugify, unique_slug}
use schedule_appointments.Business
use schedule_appointments.Business.{Business, is_given}
use schedule_appointments.Store.Tables.{◌>>=◌, ◌>>◌, Db, Tx, pure, query, require, lift, reject_if}
use schedule_appointments.Store.Businesses
use schedule_appointments.Admin.Paging.{page_number, page_length, page_offset}

-- `CreateBusinessInput`
pub record CreateBusinessInput : Type 0 where
  pub name : Text
  pub slug : Option Text
  pub phone : Text
  pub timezone : Text
  pub description : Option Text
  pub email : Option Text
  pub address : Option Text

pub record CreateBusinessOutput : Type 0 where
  pub business_id : ℕ
  pub slug : Text

-- `data.slug and not data.slug.strip()`
abbrev pub is_blank_slug : Option Text → Bool
is_blank_slug none = false
is_blank_slug (some s) = not (is_empty s) && is_blank s

-- `input_data.slug or _slugify(input_data.name)`
abbrev pub asked_slug : Unicode → CreateBusinessInput → Text
asked_slug u i = elim i.slug [
  | none ↦ slugify u (codes "business") i.name
  | some s ↦ if is_empty s then slugify u (codes "business") i.name else s
]

-- The loop over `slug_exists` in `execute`.
unfoldable pub free_slug : (tenant : ℕ) → Db → Text → Result Text
unfolding unique_slug
free_slug tenant db slug =
    unique_slug ok (Businesses.slug_exists tenant db) (conflict no_slug_left) slug

abbrev pub draft_of : ℕ → Text → CreateBusinessInput → Business.Draft
draft_of tenant slug i = record {
  tenant_id = tenant;
  name = i.name;
  slug = slug;
  phone = i.phone;
  timezone = i.timezone;
  description = i.description;
  email = i.email;
  address = i.address;
}

unfoldable pub create_business :
    Unicode → (tenant now new_id : ℕ) → CreateBusinessInput → Tx CreateBusinessOutput
unfolding slugify free_slug
create_business u tenant now new_id i = do
  reject_if (is_blank i.name) (validation empty_name)
  reject_if (is_blank i.phone) (validation empty_phone)
  reject_if (is_blank_slug i.slug) (validation empty_slug)
  slug ← lift (← query (λ db. free_slug tenant db (asked_slug u i)))
  b ← lift (Business.create u new_id now (draft_of tenant slug i))
  Businesses.add tenant b
  pure (record { business_id = b.id; slug = b.slug })

unfoldable pub delete_business : (tenant now id : ℕ) → Tx ℕ
delete_business tenant now id = do
  deleted ← Businesses.delete tenant now id
  reject_if (not deleted) (not_found no_business)
  pure id

-- The secret is not given, only whether there is one.
pub record GetBusinessOutput : Type 0 where
  pub business_id : ℕ
  pub name : Text
  pub slug : Text
  pub phone : Text
  pub email : Option Text
  pub address : Option Text
  pub description : Option Text
  pub timezone : Text
  pub is_active : Bool
  pub whatsapp_phone_number_id : Option Text
  pub owner_whatsapp : Option Text
  pub has_whatsapp_app_secret : Bool

unfoldable pub get_business : (tenant id : ℕ) → Tx GetBusinessOutput
get_business tenant id = do
  b ← require (← query (Businesses.get_by_id tenant id)) (not_found no_business)
  pure (record {
    business_id = b.id;
    name = b.name;
    slug = b.slug;
    phone = b.phone;
    email = b.email;
    address = b.address;
    description = b.description;
    timezone = b.timezone;
    is_active = b.is_active;
    whatsapp_phone_number_id = b.whatsapp_phone_number_id;
    owner_whatsapp = b.owner_whatsapp;
    has_whatsapp_app_secret = is_given b.whatsapp_app_secret;
  })

pub record BusinessSummary : Type 0 where
  pub business_id : ℕ
  pub name : Text
  pub slug : Text
  pub phone : Text
  pub is_active : Bool

abbrev pub summary_of : Business → BusinessSummary
summary_of b = record {
  business_id = b.id;
  name = b.name;
  slug = b.slug;
  phone = b.phone;
  is_active = b.is_active;
}

pub record ListBusinessesOutput : Type 0 where
  pub businesses : List BusinessSummary
  pub total : ℕ
  pub page : ℕ
  pub page_size : ℕ

unfoldable pub list_businesses : ℕ → (page page_size : ℤ) → Tx ListBusinessesOutput
list_businesses tenant page page_size = do
  rows ← query (Businesses.list_active tenant (page_offset page page_size) (page_length page_size))
  total ← query (Businesses.count_active tenant)
  pure (record {
    businesses = map summary_of rows;
    total = total;
    page = page_number page;
    page_size = page_length page_size;
  })

pub record UpdateBusinessOutput : Type 0 where
  pub business_id : ℕ
  pub name : Text
  pub slug : Text
  pub phone : Text

-- `x is not None and not x.strip()`
abbrev pub is_given_blank : Option Text → Bool
is_given_blank none = false
is_given_blank (some s) = is_blank s

unfoldable pub update_business : (tenant now id : ℕ) → Business.Changes → Tx UpdateBusinessOutput
update_business tenant now id c = do
  reject_if (is_given_blank c.name) (validation empty_name)
  reject_if (is_given_blank c.phone) (validation empty_phone)
  found ← require (← query (Businesses.get_by_id tenant id)) (not_found no_business)
  b ← lift (called (Business.update c now found))
  Businesses.update tenant b
  pure (record { business_id = b.id; name = b.name; slug = b.slug; phone = b.phone })

-- `UpdateBusinessChannelsInput`, but for the id.
pub record ChannelsInput : Type 0 where
  pub facebook_page_id : Option Text
  pub facebook_page_access_token : Option Text
  pub instagram_account_id : Option Text
  pub meta_app_secret : Option Text

pub record ChannelsOutput : Type 0 where
  pub business_id : ℕ
  pub facebook_page_id : Option Text
  pub instagram_account_id : Option Text
  pub messenger_connected : Bool
  pub instagram_connected : Bool
  pub has_page_access_token : Bool
  pub has_meta_app_secret : Bool

unfoldable pub update_business_channels : (tenant now id : ℕ) → ChannelsInput → Tx ChannelsOutput
update_business_channels tenant now id i = do
  found ← require (← query (Businesses.get_by_id tenant id)) (not_found no_business)
  let b =
      Business.configure_social_channels i.facebook_page_id i.facebook_page_access_token
        i.instagram_account_id i.meta_app_secret now found
  Businesses.update tenant b
  pure (record {
    business_id = b.id;
    facebook_page_id = b.facebook_page_id;
    instagram_account_id = b.instagram_account_id;
    messenger_connected = Business.has_messenger b;
    instagram_connected = Business.has_instagram b;
    has_page_access_token = is_given b.facebook_page_access_token;
    has_meta_app_secret = is_given b.meta_app_secret;
  })

pub record WhatsappOutput : Type 0 where
  pub business_id : ℕ
  pub whatsapp_phone_number_id : Option Text
  pub owner_whatsapp : Option Text
  pub has_whatsapp_app_secret : Bool

unfoldable pub update_business_whatsapp :
    (tenant now id : ℕ) (phone_number_id app_secret owner_whatsapp : Option Text)
    → Tx WhatsappOutput
update_business_whatsapp tenant now id phone_number_id app_secret owner_whatsapp = do
  found ← require (← query (Businesses.get_by_id tenant id)) (not_found no_business)
  let b = Business.configure_whatsapp phone_number_id app_secret owner_whatsapp none none now found
  Businesses.update tenant b
  pure (record {
    business_id = b.id;
    whatsapp_phone_number_id = b.whatsapp_phone_number_id;
    owner_whatsapp = b.owner_whatsapp;
    has_whatsapp_app_secret = is_given b.whatsapp_app_secret;
  })
