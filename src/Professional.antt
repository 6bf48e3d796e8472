-- ===== src/Professional.antt =====
-- src/domain/professional/professional.py: the entity Professional.
use schedule_appointments.Base.{ℕ, Bool, true, false, Option, none, some, if◌then◌else◌, is_empty}
use schedule_appointments.Base.Text.{Text, strip, is_blank}
use schedule_appointments.Errors.{◌>>◌, Result, ok, err, Method, modify, business_rule, empty_name}

pub record Professional : Type 0 where
  pub id : ℕ
  pub tenant_id : ℕ
  pub business_id : ℕ
  pub user_id : Option ℕ
  pub name : Text
  pub phone : Option Text
  pub is_active : Bool
  pub created_at : ℕ
  pub updated_at : ℕ

-- `phone.strip() if phone else None`
abbrev trim_phone : Option Text → Option Text
trim_phone none = none
trim_phone (some p) = if is_empty p then none else some (strip p)

unfoldable pub create :
    ℕ → ℕ → (tenant business : ℕ) → Text → Option ℕ → Option Text → Result Professional
create new_id now tenant business name user phone =
    if is_blank name
    then err (business_rule empty_name)
    else ok (record {
      id = new_id;
      tenant_id = tenant;
      business_id = business;
      user_id = user;
      name = strip name;
      phone = trim_phone phone;
      is_active = true;
      created_at = now;
      updated_at = now;
    })

abbrev set_name : Option Text → Method Professional
set_name none p = (ok tt, p)
set_name (some n) p =
    if is_blank n then (err (business_rule empty_name), p) else (ok tt, record p { name = strip n })

-- A blank phone clears the field.
abbrev set_phone : Option Text → Professional → Professional
set_phone none p = p
set_phone (some t) p = record p { phone = if is_blank t then none else some (strip t) }

unfoldable pub update : Option Text → Option Text → ℕ → Method Professional
update name phone now = do
  set_name name
  modify (set_phone phone)
  modify (λ p. record p { updated_at = now })

unfoldable pub deactivate : ℕ → Professional → Professional
deactivate now p = if p.is_active then record p { is_active = false; updated_at = now } else p

unfoldable pub activate : ℕ → Professional → Professional
activate now p = if p.is_active then p else record p { is_active = true; updated_at = now }
