-- ===== src/Sessions.antt =====
-- src/application/identity: logging in, refreshing a session and logging out, with
-- src/infrastructure/adapters/jwt_service.py. The hasher, the encoding of a token and its life are
-- arguments, and so are the tokens that are drawn. Redis is a list of entries that end.
pub mod Lost
use schedule_appointments.Base.{
  ℕ, ◌+◌, ◌*◌, Bool, ◌&&◌, not, Option, none, some, List, ◌∷◌, ltb, first, keep, is_none,
  if◌then◌else◌,
}
use schedule_appointments.Base.Text.{Text, text_eq}
use schedule_appointments.Errors.{
  Result, ok, err, authentication, type_error, bad_credentials, bad_session,
}
use schedule_appointments.Identity.{User, UserRole}
use schedule_appointments.Store.Tables.{Db}
use schedule_appointments.Store.Users

-- What the text under a key of a refresh token says: the ids and the role, with a colon between them.
pub record Session : Type 0 where
  pub user_id : ℕ
  pub tenant_id : ℕ
  pub role : UserRole

pub record Entry : Type 0 where
  pub token : Text
  pub session : Session
  pub ends_at : ℕ

pub record State : Type 0 where
  pub db : Db
  pub cache : List Entry

pub record Claims : Type 0 where
  pub user_id : ℕ
  pub tenant_id : ℕ
  pub role : UserRole
  pub email : Text
  pub expires_at : ℕ
  pub issued_at : ℕ

-- What the code takes from elsewhere: whether a password has a hash, and the text of a token.
pub record Adapters : Type 0 where
  pub verify : (password password_hash : Text) → Bool
  pub encode : Claims → Text
  pub expire_minutes : ℕ

pub record SessionOutput : Type 0 where
  pub access_token : Text
  pub refresh_token : Text
  pub expires_at : ℕ
  pub tenant_id : ℕ
  pub user_id : ℕ

-- `redis.get`: an entry is gone once its time is over.
abbrev pub is_under : (now : ℕ) → Text → Entry → Bool
is_under now token e = text_eq e.token token && ltb now e.ends_at

unfoldable pub get_entry : (now : ℕ) → Text → List Entry → Option Entry
get_entry now token cache = first (is_under now token) cache

-- `redis.delete`
unfoldable pub delete_entry : Text → List Entry → List Entry
delete_entry token cache = keep (λ e. not (text_eq e.token token)) cache

-- `redis.setex`
abbrev pub set_entry : Entry → List Entry → List Entry
set_entry e cache = e ∷ delete_entry e.token cache

-- `_REFRESH_TOKEN_TTL`, of seven days.
abbrev pub refresh_token_ttl : ℕ
refresh_token_ttl = 7 * 24 * 3600 * 1_000_000

-- `JWTService.create_access_token`; its two readings of the clock are one.
abbrev pub create_access_token :
    Adapters → (now user_id tenant_id : ℕ) → UserRole → (email : Text) → Text × ℕ
create_access_token adapters now user_id tenant_id role email =
    let expires_at = now + adapters.expire_minutes * 60_000_000 in
    (
      adapters.encode (record {
        user_id = user_id;
        tenant_id = tenant_id;
        role = role;
        email = email;
        expires_at = expires_at;
        issued_at = now;
      }),
      expires_at,
    )

abbrev pub entry_of : (now : ℕ) (new_token : Text) → User → Entry
entry_of now new_token u = record {
  token = new_token;
  session = record { user_id = u.id; tenant_id = u.tenant_id; role = u.role };
  ends_at = now + refresh_token_ttl;
}

-- What follows the check of the password.
abbrev pub log_in : Adapters → (now : ℕ) (new_token : Text) → User → State → SessionOutput × State
log_in adapters now new_token u st =
    let access = create_access_token adapters now u.id u.tenant_id u.role u.email in
    (
      record {
        access_token = access.0;
        refresh_token = new_token;
        expires_at = access.1;
        tenant_id = u.tenant_id;
        user_id = u.id;
      },
      record {
        db = Users.update_last_login now u.id st.db;
        cache = set_entry (entry_of now new_token u) st.cache;
      },
    )

abbrev pub log_in_as :
    Adapters
    → (now : ℕ) (new_token password : Text) → Option User
    → State
    → Result SessionOutput × State
log_in_as adapters now new_token password none st = (err (authentication bad_credentials), st)
log_in_as adapters now new_token password (some u) st =
    if u.is_active && adapters.verify password u.password_hash
    then (let r = log_in adapters now new_token u st in (ok r.0, r.1))
    else (err (authentication bad_credentials), st)

-- `AuthenticateUserUseCase.execute`
unfoldable pub authenticate :
    Adapters → (now : ℕ) (new_token email password : Text) → State → Result SessionOutput × State
authenticate adapters now new_token email password st =
    log_in_as adapters now new_token password (Users.get_by_email email st.db) st

-- The call of `create_access_token` leaves out the address, so that Python raises there, with the old
-- token deleted.
abbrev pub rotate : Text → Option Entry → State → Result SessionOutput × State
rotate token none st = (err (authentication bad_session), st)
rotate token (some e) st = (err type_error, record st { cache = delete_entry token st.cache })

-- `RefreshTokenUseCase.execute`; every entry is one that `authenticate` wrote, so that the check of
-- its form is left out.
unfoldable pub refresh : (now : ℕ) → Text → State → Result SessionOutput × State
refresh now token st = rotate token (get_entry now token st.cache) st

-- `LogoutUseCase.execute`
unfoldable pub logout : (now : ℕ) → Text → State → Bool × State
logout now token st = (
  not (is_none (get_entry now token st.cache)),
  record st { cache = delete_entry token st.cache },
)
