-- ===== src/Sessions/Lost.antt =====
-- What becomes of a session that is refreshed.
use schedule_appointments.Base.{
  ℕ, ◌+◌, ◌<◌, ◌≡◌, refl, subst, false, ◌&&◌, Option, none, some, List, [], ◌∷◌, arith, inl, inr,
  Bool-cases,
}
use schedule_appointments.Base.Text.{Text, text_eq, text_eq_refl}
use schedule_appointments.Errors.{ok, err, type_error}
use schedule_appointments.Identity.{User}
use schedule_appointments.Sessions.{
  Adapters, State, SessionOutput, Entry, get_entry, delete_entry, authenticate, refresh, logout,
  refresh_token_ttl, log_in_as, log_in, entry_of,
}
use schedule_appointments.Store.Users

get_entry-delete_entry :
    (now : ℕ) (token : Text) (cache : List Entry)
    → get_entry now token (delete_entry token cache) ≡ none
unfolding get_entry delete_entry
get_entry-delete_entry now token [] = refl
get_entry-delete_entry now token (e ∷ es) = elim (Bool-cases (text_eq e.token token)) [
  | inl t ↦ rw t (get_entry-delete_entry now token es)
  | inr f ↦ rw f (rw f (get_entry-delete_entry now token es))
]

gone :
    (after : ℕ) (token : Text) (st : State)
    → (logout after token (record st { cache = delete_entry token st.cache })).0 ≡ false
unfolding logout
gone after token st = rw (get_entry-delete_entry after token st.cache) refl

refresh_found :
    (now : ℕ) (token : Text) (st : State) (e : Entry)
    → get_entry now token st.cache ≡ some e
    → refresh now token st ≡ (err type_error, record st { cache = delete_entry token st.cache })
unfolding refresh
refresh_found now token st e h = rw h refl

-- A log-in that succeeds went past both checks.
log_in-of_ok :
    (adapters : Adapters) (now : ℕ) (token password : Text) (u : User) (st : State)
    {o : SessionOutput} {st' : State}
    → log_in_as adapters now token password (some u) st ≡ (ok o, st')
    → log_in adapters now token u st ≡ (o, st')
log_in-of_ok adapters now token password u st {o} {st'} h =
    elim (Bool-cases (u.is_active && adapters.verify password u.password_hash)) [
      | inl t ↦ cc
      | inr f ↦ cc
    ]

get_entry-log_in :
    (adapters : Adapters) (now : ℕ) (token : Text) (u : User) (st : State) (later : ℕ)
    → later < now + refresh_token_ttl
    → (e : Entry) × (get_entry later token (log_in adapters now token u st).1.cache ≡ some e)
unfolding get_entry
get_entry-log_in adapters now token u st later l =
    (entry_of now token u, rw (text_eq_refl token) (ground arith))

logged_in :
    (adapters : Adapters) (now : ℕ) (token password : Text) (u : Option User) (st : State)
    {o : SessionOutput} {st' : State}
    → log_in_as adapters now token password u st ≡ (ok o, st')
    → (later : ℕ) → later < now + refresh_token_ttl
    → (o.refresh_token ≡ token) × ((e : Entry) × (get_entry later token st'.cache ≡ some e))
logged_in adapters now token password none st h later l = cc
logged_in adapters now token password (some u) st {o} {st'} h later l =
    subst
      (λ r.
        (r.0.refresh_token ≡ token) × ((e : Entry) × (get_entry later token r.1.cache ≡ some e)))
      (log_in-of_ok adapters now token password u st h)
      (refl, get_entry-log_in adapters now token u st later l)

-- Whoever logs in and asks for a refresh within the seven days that the session lasts meets an
-- exception, and has no session any more: logging out, at any time after, finds nothing to end.
pub refreshed_is_lost :
    (adapters : Adapters) (now : ℕ) (token email password : Text) (st : State) {o : SessionOutput}
    {st' : State}
    → authenticate adapters now token email password st ≡ (ok o, st')
    → (later : ℕ) → later < now + refresh_token_ttl
    → ((refresh later o.refresh_token st').0 ≡ err type_error)
      × ((after : ℕ)
          → (logout after o.refresh_token (refresh later o.refresh_token st').1).0 ≡ false)
unfolding authenticate
refreshed_is_lost adapters now token email password st {o} {st'} h later l =
    let k = logged_in adapters now token password (Users.get_by_email email st.db) st h later l in
    let r = refresh_found later token st' k.1.0 k.1.1 in
    rw k.0 (rw r (refl, λ after. gone after token st'))
