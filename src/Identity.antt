-- ===== src/Identity.antt =====
-- The users of src/domain/identity/user.py, as the rows of
-- src/infrastructure/persistence/models/identity.py.
use schedule_appointments.Base.{ℕ, Bool, Option}
use schedule_appointments.Base.Text.{Text}

pub data UserRole : Type 0 where
  admin manager staff : UserRole

-- `UserModel`; the phone and the times of creation and change are left out.
pub record User : Type 0 where
  pub id : ℕ
  pub tenant_id : ℕ
  pub email : Text
  pub password_hash : Text
  pub role : UserRole
  pub email_verified : Bool
  pub verification_token : Option Text
  pub verification_token_expires_at : Option ℕ
  pub last_login_at : Option ℕ
  pub is_active : Bool
