-- ===== src/Store/Users.antt =====
-- src/infrastructure/persistence/repositories/user_repository.py, and what writes the same rows:
-- infrastructure/adapters/user_factory.py and infrastructure/adapters/db_verification_token_service.py.
-- The queries that Python takes with `scalar_one_or_none` raise where two rows fit, here they give the
-- first.
use schedule_appointments.Base.{
  ℕ, ◌+◌, ◌*◌, Bool, true, false, ◌&&◌, Option, none, some, [], ◌∷◌, ◌++◌, ◌==◌, ltb, first, map,
  if◌then◌else◌,
}
use schedule_appointments.Base.Text.{Text, text_eq}
use schedule_appointments.Identity.{User, UserRole, admin}
use schedule_appointments.Store.Tables.{Db}

unfoldable pub get_by_id : ℕ → Db → Option User
get_by_id id db = first (λ u. u.id == id) db.users

-- Of the active users.
unfoldable pub get_by_email : Text → Db → Option User
get_by_email email db = first (λ u. text_eq u.email email && u.is_active) db.users

abbrev pub change_where : (User → Bool) → (User → User) → Db → Db
change_where p f db = record db { users = map (λ u. if p u then f u else u) db.users }

unfoldable pub update_last_login : (now id : ℕ) → Db → Db
update_last_login now id db =
    change_where (λ u. u.id == id) (λ u. record u { last_login_at = some now }) db

unfoldable pub create_admin_user : (new_id tenant : ℕ) (email password_hash : Text) → Db → Db
create_admin_user new_id tenant email password_hash db = record db {
  users =
      db.users
      ++ record {
        id = new_id;
        tenant_id = tenant;
        email = email;
        password_hash = password_hash;
        role = admin;
        email_verified = false;
        verification_token = none;
        verification_token_expires_at = none;
        last_login_at = none;
        is_active = true;
      }
        ∷ [];
}

abbrev pub is_admin : UserRole → Bool
is_admin admin = true
is_admin _ = false

-- A token lasts for 24 hours.
unfoldable pub issue_for : (token : Text) (now tenant : ℕ) → Db → Db
issue_for token now tenant db =
    change_where (λ u. u.tenant_id == tenant && (is_admin u.role && u.is_active))
      (λ u. record u {
        verification_token = some token;
        verification_token_expires_at = some (now + 24 * 3_600_000_000);
      })
      db

-- `verification_token == token`
abbrev pub has_token : Text → User → Bool
has_token token u = elim u.verification_token [ none ↦ false | some t ↦ text_eq t token ]

-- The tenant of a user whose token has not expired at `now`, with the database in which the token is
-- used up.
abbrev pub use_up : ℕ → Db → User → Option ℕ → Option ℕ × Db
use_up now db u none = (none, db)
use_up now db u (some end) = if ltb end now then (none, db) else (
  some u.tenant_id,
  change_where (λ v. v.id == u.id)
      (λ v. record v {
        verification_token = none;
        verification_token_expires_at = none;
        email_verified = true;
      })
      db,
)

abbrev pub use_up_of : ℕ → Db → Option User → Option ℕ × Db
use_up_of now db none = (none, db)
use_up_of now db (some u) = use_up now db u u.verification_token_expires_at

unfoldable pub consume : (now : ℕ) → Text → Db → Option ℕ × Db
consume now token db = use_up_of now db (first (has_token token) db.users)
