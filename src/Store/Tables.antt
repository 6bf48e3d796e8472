-- ===== src/Store/Tables.antt =====
-- The tables, and the unit of work of src/application/shared/unit_of_work.py.
use schedule_appointments.Base.{ℕ, Bool, true, false, Option, none, some, List}
use schedule_appointments.Errors.{Result, ok, err, DomainError}
use schedule_appointments.Appointment.{Appointment}
use schedule_appointments.Service.{Service}
use schedule_appointments.Client.{Client}
use schedule_appointments.Professional.{Professional}
use schedule_appointments.Hours.{BusinessHour}
use schedule_appointments.Conversation.{Conversation, Message, HumanTransfer}
use schedule_appointments.Membership.{Membership, MembershipPlan}
use schedule_appointments.Tenant.{Tenant}
use schedule_appointments.Business.{Business}
use schedule_appointments.Identity.{User}

-- A row of the table that says who can perform a service.
pub record Assignment : Type 0 where
  pub tenant_id : ℕ
  pub service_id : ℕ
  pub professional_id : ℕ

-- A row of the opening hours, with its place among the ranges of its weekday.
pub record HourRow : Type 0 where
  pub hour : BusinessHour
  pub sequence : ℕ

-- A row of the table that says which services a membership plan includes.
pub record PlanService : Type 0 where
  pub tenant_id : ℕ
  pub plan_id : ℕ
  pub service_id : ℕ

-- `arrange` is the order in which the database gives the rows that a query without ORDER BY finds.
pub record Db : Type 0 where
  pub appointments : List Appointment
  pub services : List Service
  pub assignments : List Assignment
  pub clients : List Client
  pub professionals : List Professional
  pub hours : List HourRow
  pub plans : List MembershipPlan
  pub plan_services : List PlanService
  pub memberships : List Membership
  pub conversations : List Conversation
  pub messages : List Message
  pub transfers : List HumanTransfer
  pub tenants : List Tenant
  pub users : List User
  pub businesses : List Business
  pub arrange : List ℕ → List ℕ

-- A use case under `async with uow`: an exception rolls the transaction back, so that no database
-- comes with it.
abbrev pub Tx : Type 0 → Type 0
Tx A = Db → Result (A × Db)

abbrev pub continue : {A B : Type 0} → Result (A × Db) → (A → Tx B) → Result (B × Db)
continue (ok (a, db)) f = f a db
continue (err e) f = err e

infixl 5 ◌>>=◌ ◌>>◌
abbrev pub ◌>>=◌ : {A B : Type 0} → Tx A → (A → Tx B) → Tx B
◌>>=◌ m f db = continue (m db) f

abbrev pub ◌>>◌ : {A B : Type 0} → Tx A → Tx B → Tx B
m >> k = m >>= λ _. k

module _ {A : Type 0} where
  abbrev pub pure : A → Tx A
  pure a db = ok (a, db)

  abbrev pub raise : DomainError → Tx A
  raise e db = err e

  abbrev pub query : (Db → A) → Tx A
  query f db = ok (f db, db)

  -- `if x is None: raise e`
  abbrev pub require : Option A → DomainError → Tx A
  require none e = raise e
  require (some a) e = pure a

  -- A call that may raise and writes nothing to the database.
  abbrev pub lift : Result A → Tx A
  lift (ok a) = pure a
  lift (err e) = raise e

abbrev pub modify : (Db → Db) → Tx (Unit {0})
modify f db = ok (tt, f db)

-- `if b: raise e`
abbrev pub reject_if : Bool → DomainError → Tx (Unit {0})
reject_if true e = raise e
reject_if false e = pure tt
