-- ===== src/Examples/Enrollment.antt =====
-- Sales of a monthly plan at the counter.
use mathlib.Core.List.{Perm, reverse_perm}
use schedule_appointments.Base.{ℕ, ◌≡◌, ◌≢◌, refl, none, some, List, [], ◌∷◌, arith, map}
use schedule_appointments.Base.Text.{codes}
use schedule_appointments.Base.Clock.{aware, days}
use schedule_appointments.Base.Calendar.{plus_days}
use schedule_appointments.Errors.{err, value_error}
use schedule_appointments.Store.Plans.{unrepeated}
use schedule_appointments.Store.Plans.Included.{list-set_services}
use schedule_appointments.Enrollment.LeapDay.{grant_on_leap_day}
use schedule_appointments.Enrollment.Consult.{get_client_membership}
use schedule_appointments.Enrollment.Consult.Entitled.{
  Confirms, consult_entitled, consult_elsewhere,
}
use schedule_appointments.Membership.{
  Membership, Status, active, cancelled, is_current, effective_status,
}
use schedule_appointments.Store.Tables.{Db}
use schedule_appointments.Store.Plans
use schedule_appointments.Enrollment.{
  Counter, GrantInput, freeze, cancel, grant_membership, manage_membership, validate_grant,
}
use schedule_appointments.Enrollment.Single.{IsSingle}
use schedule_appointments.Enrollment.OneLive.{
  Operation, grant, manage, run_all, ProvidesAll, one_live_membership,
}
use schedule_appointments.Examples.Data.{empty_db, now, machine}
use schedule_appointments.Examples.Memberships.{plan, gold}

abbrev gym_db : Db
gym_db = record empty_db { plans = plan ∷ [] }

abbrev counter : ℕ → Counter
counter id = record { tenant = 1; now = now; client_id = 50; membership_id = id }

abbrev sale : GrantInput
sale = record {
  business_id = 10;
  membership_plan_id = 5;
  client_id = none;
  client_whatsapp = some (codes " +591 ");
  client_name = some (codes "Ana");
  starts_at = none;
  notes = none;
}

-- The second sale is refused while the first is live; after the cancellation a third one is not.
abbrev sales : List Operation
sales =
    grant (counter 1) sale
    ∷ grant (counter 2) sale
    ∷ manage 1 now 1 freeze
    ∷ manage 1 now 1 (cancel none)
    ∷ grant (counter 3) sale
    ∷ []

abbrev standing : Membership → ℕ × Status
standing m = (m.id, m.status)

rows_after : map standing (run_all sales gym_db).memberships ≡ (1, cancelled) ∷ (3, active) ∷ []
unfolding run_all machine grant_membership manage_membership validate_grant
rows_after = refl

one_live_membership_example : IsSingle (run_all sales gym_db).memberships
unfolding run_all ProvidesAll machine grant_membership manage_membership validate_grant
one_live_membership_example =
    one_live_membership sales gym_db (record { keys = tt; stored = tt; single = tt })
      (tt, ((omega arith, tt), (tt, (tt, ((omega arith, tt), tt)))))

-- The 29th of February of the year 4.
abbrev leap_day : Counter
leap_day = record (counter 1) { now = days 1154 }

abbrev dated : GrantInput
dated = record sale { starts_at = some (aware (days 1154)) }

grant_on_leap_day_example : grant_membership leap_day dated gym_db ≡ err value_error
unfolding plus_days machine
grant_on_leap_day_example = grant_on_leap_day leap_day dated gym_db (days 1154) refl refl refl refl

abbrev member : Membership
member = record gold { id = 8; client_id = 50 }

abbrev member_db : Db
member_db = record gym_db { memberships = member ∷ [] }

consult_entitled_example : Confirms (get_client_membership 1 now 50 10 member_db) member
unfolding machine is_current effective_status
consult_entitled_example =
    consult_entitled 1 50 10 now 8 member member_db
      (record { keys = (tt, tt); stored = (λ h. cc, tt); single = (tt, tt) }) refl refl refl refl

-- The client is asked about at business 11 and is a member of business 10.
consult_elsewhere_example :
    Confirms (get_client_membership 1 now 50 11 member_db) member
    × (get_client_membership 1 now 50 11 member_db ≡ get_client_membership 1 now 50 10 member_db)
unfolding machine is_current effective_status
consult_elsewhere_example = consult_elsewhere 1 50 11 now member member_db refl (omega arith) refl

-- The database of the examples gives such rows in the opposite order.
list-set_services_example :
    Perm
      (Plans.list_service_ids 1 5 (Plans.set_services 1 5 (7 ∷ 8 ∷ 7 ∷ []) gym_db))
      (unrepeated (7 ∷ 8 ∷ 7 ∷ []))
    × ((other : ℕ)
        → other ≢ 5
        → Plans.list_service_ids 1 other (Plans.set_services 1 5 (7 ∷ 8 ∷ 7 ∷ []) gym_db)
          ≡ Plans.list_service_ids 1 other gym_db)
list-set_services_example = list-set_services 1 5 (7 ∷ 8 ∷ 7 ∷ []) gym_db (λ xs. reverse_perm xs)
