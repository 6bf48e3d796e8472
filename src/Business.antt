-- ===== src/Business.antt =====
-- src/domain/business/business.py: the entity Business. Each method reads the clock once, as its
-- argument `now`.
use schedule_appointments.Base.{
  ℕ, Bool, true, false, ◌&&◌, not, Option, none, some, is_empty, if◌then◌else◌,
}
use schedule_appointments.Base.Text.{Text, strip, is_blank}
use schedule_appointments.Errors.{
  ◌>>◌, Result, ok, err, Method, modify, business_rule, empty_name, empty_phone, empty_slug,
  no_token,
}
use schedule_appointments.Slug.{Unicode}

pub record Business : Type 0 where
  pub id : ℕ
  pub tenant_id : ℕ
  pub name : Text
  pub slug : Text
  pub description : Option Text
  pub phone : Text
  pub email : Option Text
  pub address : Option Text
  pub timezone : Text
  pub is_active : Bool
  pub whatsapp_phone_number_id : Option Text
  pub whatsapp_waba_id : Option Text
  pub whatsapp_access_token : Option Text
  pub whatsapp_app_secret : Option Text
  pub owner_whatsapp : Option Text
  pub facebook_page_id : Option Text
  pub facebook_page_access_token : Option Text
  pub instagram_account_id : Option Text
  pub meta_app_secret : Option Text
  pub created_at : ℕ
  pub updated_at : ℕ

-- The keyword arguments of `Business.create`.
pub record Draft : Type 0 where
  pub tenant_id : ℕ
  pub name : Text
  pub slug : Text
  pub phone : Text
  pub timezone : Text
  pub description : Option Text
  pub email : Option Text
  pub address : Option Text

unfoldable pub create : Unicode → (new_id now : ℕ) → Draft → Result Business
create u new_id now d =
    if is_blank d.name
    then err (business_rule empty_name)
    else if is_blank d.phone
    then err (business_rule empty_phone)
    else if is_blank d.slug
    then err (business_rule empty_slug)
    else ok (record {
      id = new_id;
      tenant_id = d.tenant_id;
      name = strip d.name;
      slug = u.lower (strip d.slug);
      description = d.description;
      phone = strip d.phone;
      email = d.email;
      address = d.address;
      timezone = d.timezone;
      is_active = true;
      whatsapp_phone_number_id = none;
      whatsapp_waba_id = none;
      whatsapp_access_token = none;
      whatsapp_app_secret = none;
      owner_whatsapp = none;
      facebook_page_id = none;
      facebook_page_access_token = none;
      instagram_account_id = none;
      meta_app_secret = none;
      created_at = now;
      updated_at = now;
    })

-- The keyword arguments of `Business.update`; `none` leaves a field alone.
pub record Changes : Type 0 where
  pub name : Option Text
  pub description : Option Text
  pub phone : Option Text
  pub email : Option Text
  pub address : Option Text
  pub timezone : Option Text

abbrev set_name : Option Text → Method Business
set_name none b = (ok tt, b)
set_name (some n) b =
    if is_blank n then (err (business_rule empty_name), b) else (ok tt, record b { name = strip n })

abbrev set_phone : Option Text → Method Business
set_phone none b = (ok tt, b)
set_phone (some p) b =
    if is_blank p
    then (err (business_rule empty_phone), b)
    else (ok tt, record b { phone = strip p })

abbrev set_timezone : Option Text → Business → Business
set_timezone none b = b
set_timezone (some z) b = record b { timezone = z }

-- An optional field that is written where a value is given.
abbrev overwrite : Option Text → Option Text → Option Text
overwrite none old = old
overwrite (some x) old = some x

unfoldable pub update : Changes → ℕ → Method Business
update c now = do
  set_name c.name
  set_phone c.phone
  modify (set_timezone c.timezone)
  modify (λ b. record b {
    description = overwrite c.description b.description;
    email = overwrite c.email b.email;
    address = overwrite c.address b.address;
    updated_at = now;
  })

-- `x.strip() if x else None`
abbrev stripped : Option Text → Option Text
stripped none = none
stripped (some x) = if is_empty x then none else some (strip x)

-- `if x is not None: field = x.strip() if x else None`
abbrev reset : Option Text → Option Text → Option Text
reset none old = old
reset (some x) old = stripped (some x)

unfoldable pub configure_whatsapp :
    (phone_number_id app_secret owner_whatsapp waba_id access_token : Option Text)
    → ℕ
    → Business
    → Business
configure_whatsapp phone_number_id app_secret owner_whatsapp waba_id access_token now b = record b {
  whatsapp_phone_number_id = stripped phone_number_id;
  whatsapp_app_secret = stripped app_secret;
  owner_whatsapp = stripped owner_whatsapp;
  whatsapp_waba_id = reset waba_id b.whatsapp_waba_id;
  whatsapp_access_token = reset access_token b.whatsapp_access_token;
  updated_at = now;
}

-- `if x is not None: field = x.strip() or None`
abbrev set_or_clear : Option Text → Option Text → Option Text
set_or_clear none old = old
set_or_clear (some x) old = if is_blank x then none else some (strip x)

unfoldable pub configure_social_channels :
    (page_id page_access_token instagram_account_id meta_app_secret : Option Text)
    → ℕ
    → Business
    → Business
configure_social_channels page_id page_access_token instagram_account_id meta_app_secret now b =
    record b {
      facebook_page_id = set_or_clear page_id b.facebook_page_id;
      facebook_page_access_token = set_or_clear page_access_token b.facebook_page_access_token;
      instagram_account_id = set_or_clear instagram_account_id b.instagram_account_id;
      meta_app_secret = set_or_clear meta_app_secret b.meta_app_secret;
      updated_at = now;
    }

-- `bool(x)`
abbrev pub is_given : Option Text → Bool
is_given none = false
is_given (some x) = not (is_empty x)

unfoldable pub has_messenger : Business → Bool
has_messenger b = is_given b.facebook_page_id && is_given b.facebook_page_access_token

unfoldable pub has_instagram : Business → Bool
has_instagram b = is_given b.instagram_account_id && is_given b.facebook_page_access_token

-- `if x: field = x.strip()`
abbrev set_if_given : Option Text → Option Text → Option Text
set_if_given none old = old
set_if_given (some x) old = if is_empty x then old else some (strip x)

unfoldable pub connect_via_embedded_signup :
    (waba_id phone_number_id access_token : Text) (phone_display : Option Text)
    → ℕ
    → Method Business
connect_via_embedded_signup waba_id phone_number_id access_token phone_display now b =
    if is_blank waba_id
    then (err (business_rule no_token), b)
    else if is_blank phone_number_id
    then (err (business_rule no_token), b)
    else if is_blank access_token
    then (err (business_rule no_token), b)
    else (
      ok tt,
      record b {
        whatsapp_waba_id = some (strip waba_id);
        whatsapp_phone_number_id = some (strip phone_number_id);
        whatsapp_access_token = some (strip access_token);
        owner_whatsapp = set_if_given phone_display b.owner_whatsapp;
        updated_at = now;
      },
    )

unfoldable pub deactivate : ℕ → Business → Business
deactivate now b = if b.is_active then record b { is_active = false; updated_at = now } else b

unfoldable pub activate : ℕ → Business → Business
activate now b = if b.is_active then b else record b { is_active = true; updated_at = now }
