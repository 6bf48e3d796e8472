-- ===== src/Enrollment/LeapDay.antt =====
-- grant_membership.py on a 29th of February.
use schedule_appointments.Base.{ℕ, ◌≡◌, ◌/◌, ◌&&◌, refl, ap, none, false, some, is_none}
use schedule_appointments.Base.Text.{is_blank}
use schedule_appointments.Base.Clock.{aware, day}
use schedule_appointments.Base.Calendar.{of_ordinal, of_ordinal-IsDay, years_later-leap_day}
use schedule_appointments.Errors.{err, value_error}
use schedule_appointments.Store.Tables.{Db}
use schedule_appointments.Enrollment.Grant.{
  Counter, GrantInput, grant_membership, in_five_years, trimmed, validate_grant, check_far,
}

no_year :
    (now : ℕ)
    → (of_ordinal (now / day)).month ≡ 2
    → (of_ordinal (now / day)).day ≡ 29
    → in_five_years now ≡ none
unfolding in_five_years
no_year now m d =
    rw
      (
        in_five_years,
        years_later-leap_day (of_ordinal (now / day)) (of_ordinal-IsDay (now / day)) m d,
      )
      refl

refused :
    (r : Counter) (i : GrantInput) (t : ℕ)
    → (of_ordinal (r.now / day)).month ≡ 2
    → (of_ordinal (r.now / day)).day ≡ 29
    → (is_none i.client_id && is_blank (trimmed i.client_whatsapp)) ≡ false
    → i.starts_at ≡ some (aware t)
    → validate_grant r.now i ≡ err value_error
unfolding validate_grant
refused r i t m d named start = rw (named, start) (ap (λ o. check_far o t) (no_year r.now m d))

-- On a 29th of February every grant that names a client and gives a start with a time zone raises
-- ValueError, whatever the start and the database.
pub grant_on_leap_day :
    (r : Counter) (i : GrantInput) (db : Db) (t : ℕ)
    → (of_ordinal (r.now / day)).month ≡ 2
    → (of_ordinal (r.now / day)).day ≡ 29
    → (is_none i.client_id && is_blank (trimmed i.client_whatsapp)) ≡ false
    → i.starts_at ≡ some (aware t)
    → grant_membership r i db ≡ err value_error
unfolding grant_membership
grant_on_leap_day r i db t m d named start = rw (refused r i t m d named start) refl
