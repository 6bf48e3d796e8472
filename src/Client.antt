-- ===== src/Client.antt =====
-- src/domain/client/client.py and src/domain/shared/channel.py: the entity Client.
use schedule_appointments.Base.{
  ℕ, ◌+◌, Bool, true, false, Option, none, some, [], or_else, if◌then◌else◌, is_empty,
}
use schedule_appointments.Base.Text.{Text, strip, is_blank}
use schedule_appointments.Errors.{Result, ok, err, business_rule, no_external_id}

pub data Channel : Type 0 where
  whatsapp messenger instagram : Channel

abbrev pub is_social : Channel → Bool
is_social whatsapp = false
is_social messenger = true
is_social instagram = true

abbrev pub is_whatsapp : Channel → Bool
is_whatsapp whatsapp = true
is_whatsapp _ = false

pub record Client : Type 0 where
  pub id : ℕ
  pub tenant_id : ℕ
  pub whatsapp_number : Text
  pub channel : Channel
  pub external_id : Text
  pub name : Text
  pub email : Option Text
  pub phone : Option Text
  pub notes : Option Text
  pub is_active : Bool
  pub appointment_count : ℕ
  pub last_appointment_at : Option ℕ
  pub last_interaction_at : Option ℕ
  pub created_at : ℕ
  pub updated_at : ℕ

-- The keyword arguments of `Client.create`.
pub record Draft : Type 0 where
  pub tenant_id : ℕ
  pub whatsapp_number : Text
  pub name : Text
  pub email : Option Text
  pub phone : Option Text
  pub notes : Option Text
  pub channel : Channel
  pub external_id : Option Text

-- `external_id or whatsapp_number`: an empty text counts as absent.
abbrev text_or : Option Text → Text → Text
text_or none d = d
text_or (some s) d = if is_empty s then d else s

unfoldable pub create : ℕ → ℕ → Draft → Result Client
create new_id now d =
    let resolved = strip (text_or d.external_id d.whatsapp_number) in
    if is_empty resolved
    then err (business_rule no_external_id)
    else ok (record {
      id = new_id;
      tenant_id = d.tenant_id;
      whatsapp_number = strip d.whatsapp_number;
      channel = d.channel;
      external_id = resolved;
      name = strip d.name;
      email = d.email;
      phone = d.phone;
      notes = d.notes;
      is_active = true;
      appointment_count = 0;
      last_appointment_at = none;
      last_interaction_at = none;
      created_at = now;
      updated_at = now;
    })

unfoldable pub increment_appointment_count : ℕ → ℕ → Client → Client
increment_appointment_count at now c = record c {
  appointment_count = c.appointment_count + 1;
  last_appointment_at = some at;
  updated_at = now;
}

-- `if detail and detail.strip()`
abbrev given : Option Text → Bool
given none = false
given (some s) = if is_blank s then false else true

abbrev stripped : Option Text → Text
stripped o = strip (or_else o [])

unfoldable pub record_contact_details :
    Option Text → Option Text → Option Text → ℕ → Client → Client
record_contact_details name phone email now c = record c {
  name = if given name then stripped name else c.name;
  phone = if given phone then some (stripped phone) else c.phone;
  email = if given email then some (stripped email) else c.email;
  updated_at = now;
}

unfoldable pub record_interaction : Option ℕ → ℕ → Client → Client
record_interaction at now c = record c {
  last_interaction_at = some (or_else at now);
  updated_at = now;
}
