-- ===== src/Examples/Sessions.antt =====
-- A user who logs in, refreshes and logs out.
use schedule_appointments.Base.{ℕ, ◌+◌, ◌*◌, ◌≡◌, refl, true, false, none, [], ◌∷◌, arith}
use schedule_appointments.Base.Text.{codes, text_eq}
use schedule_appointments.Errors.{ok, err, authentication, type_error, bad_credentials, bad_session}
use schedule_appointments.Identity.{User, manager}
use schedule_appointments.Store.Users
use schedule_appointments.Sessions.{
  Adapters, State, Claims, SessionOutput, authenticate, refresh, logout, get_entry, delete_entry,
}
use schedule_appointments.Sessions.Lost.{refreshed_is_lost}
use schedule_appointments.Examples.Data.{empty_db, now}

abbrev eva : User
eva = record {
  id = 3;
  tenant_id = 1;
  email = codes "eva@x.bo";
  password_hash = codes "#s3cret";
  role = manager;
  email_verified = true;
  verification_token = none;
  verification_token_expires_at = none;
  last_login_at = none;
  is_active = true;
}

abbrev before : State
before = record { db = record empty_db { users = eva ∷ [] }; cache = [] }

abbrev adapters : Adapters
adapters = record {
  verify = λ password hash. text_eq (35 ∷ password) hash;
  encode = λ (c : Claims). c.email;
  expire_minutes = 30;
}

-- All that the sessions compute with: a test that names this unfolds it.
unfoldable session : Unit {0}
unfolding text_eq Users.get_by_email Users.update_last_login authenticate refresh logout get_entry
    delete_entry
session = tt

abbrev logged_in : State
logged_in = (authenticate adapters now (codes "t1") (codes "eva@x.bo") (codes "s3cret") before).1

abbrev answer : SessionOutput
answer = record {
  access_token = codes "eva@x.bo";
  refresh_token = codes "t1";
  expires_at = now + 30 * 60_000_000;
  tenant_id = 1;
  user_id = 3;
}

logs_in :
    authenticate adapters now (codes "t1") (codes "eva@x.bo") (codes "s3cret") before
    ≡ (ok answer, logged_in)
unfolding session
logs_in = refl

wrong_password :
    authenticate adapters now (codes "t1") (codes "eva@x.bo") (codes "secret") before
    ≡ (err (authentication bad_credentials), before)
unfolding session
wrong_password = refl

logged_out : (logout (now + 1) (codes "t1") logged_in).0 ≡ true
unfolding session
logged_out = refl

-- After seven days.
too_late :
    (refresh (now + 7 * 24 * 3600 * 1_000_000) (codes "t1") logged_in).0
    ≡ err (authentication bad_session)
unfolding session
too_late = refl

-- An hour later.
refreshed_is_lost_example :
    ((refresh (now + 3600 * 1_000_000) (codes "t1") logged_in).0 ≡ err type_error)
    × ((after : ℕ)
        → (logout after (codes "t1") (refresh (now + 3600 * 1_000_000) (codes "t1") logged_in).1).0
          ≡ false)
refreshed_is_lost_example =
    refreshed_is_lost adapters now (codes "t1") (codes "eva@x.bo") (codes "s3cret") before logs_in
      (now + 3600 * 1_000_000) (omega arith)
