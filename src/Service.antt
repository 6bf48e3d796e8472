-- ===== src/Service.antt =====
-- src/domain/service/service.py: the entity Service.
pub mod Valid
use schedule_appointments.Base.{ℕ, Bool, true, false, Option, none, some, ltb, if◌then◌else◌}
use schedule_appointments.Base.Int.{ℤ, pos, pos_part, ltb_ℤ}
use schedule_appointments.Base.Text.{Text, strip, is_blank}
use schedule_appointments.Errors.{
  ◌>>◌, Result, ok, err, Method, modify, business_rule, empty_name, short_duration, negative_price,
  low_capacity,
}

pub record Service : Type 0 where
  pub id : ℕ
  pub tenant_id : ℕ
  pub business_id : ℕ
  pub name : Text
  pub description : Option Text
  pub duration_minutes : ℕ
  pub price : Option ℕ
  pub capacity : ℕ
  pub is_active : Bool
  pub created_at : ℕ
  pub updated_at : ℕ

abbrev pub is_group_class : Service → Bool
is_group_class s = ltb 1 s.capacity

-- The keyword arguments of `Service.create`.
pub record Draft : Type 0 where
  pub tenant_id : ℕ
  pub business_id : ℕ
  pub name : Text
  pub duration_minutes : ℤ
  pub description : Option Text
  pub price : Option ℤ
  pub capacity : ℤ

abbrev is_negative : Option ℤ → Bool
is_negative none = false
is_negative (some p) = ltb_ℤ p (pos 0)

abbrev amount : Option ℤ → Option ℕ
amount none = none
amount (some p) = some (pos_part p)

unfoldable pub create : ℕ → ℕ → Draft → Result Service
create new_id now d =
    if is_blank d.name
    then err (business_rule empty_name)
    else if ltb_ℤ d.duration_minutes (pos 1)
    then err (business_rule short_duration)
    else if is_negative d.price
    then err (business_rule negative_price)
    else if ltb_ℤ d.capacity (pos 1)
    then err (business_rule low_capacity)
    else ok (record {
      id = new_id;
      tenant_id = d.tenant_id;
      business_id = d.business_id;
      name = strip d.name;
      description = d.description;
      duration_minutes = pos_part d.duration_minutes;
      price = amount d.price;
      capacity = pos_part d.capacity;
      is_active = true;
      created_at = now;
      updated_at = now;
    })

-- The keyword arguments of `Service.update`; `none` leaves a field alone.
pub record Changes : Type 0 where
  pub name : Option Text
  pub description : Option Text
  pub duration_minutes : Option ℤ
  pub price : Option ℤ
  pub capacity : Option ℤ

abbrev set_name : Option Text → Method Service
set_name none s = (ok tt, s)
set_name (some n) s =
    if is_blank n then (err (business_rule empty_name), s) else (ok tt, record s { name = strip n })

abbrev set_duration : Option ℤ → Method Service
set_duration none s = (ok tt, s)
set_duration (some d) s =
    if ltb_ℤ d (pos 1)
    then (err (business_rule short_duration), s)
    else (ok tt, record s { duration_minutes = pos_part d })

abbrev set_price : Option ℤ → Method Service
set_price none s = (ok tt, s)
set_price (some p) s =
    if ltb_ℤ p (pos 0)
    then (err (business_rule negative_price), s)
    else (ok tt, record s { price = some (pos_part p) })

abbrev set_capacity : Option ℤ → Method Service
set_capacity none s = (ok tt, s)
set_capacity (some c) s =
    if ltb_ℤ c (pos 1)
    then (err (business_rule low_capacity), s)
    else (ok tt, record s { capacity = pos_part c })

abbrev set_description : Option Text → Service → Service
set_description none s = s
set_description (some d) s = record s { description = some d }

unfoldable pub update : Changes → ℕ → Method Service
update c now = do
  set_name c.name
  set_duration c.duration_minutes
  set_price c.price
  set_capacity c.capacity
  modify (set_description c.description)
  modify (λ s. record s { updated_at = now })

unfoldable pub deactivate : ℕ → Service → Service
deactivate now s = if s.is_active then record s { is_active = false; updated_at = now } else s

unfoldable pub activate : ℕ → Service → Service
activate now s = if s.is_active then s else record s { is_active = true; updated_at = now }
