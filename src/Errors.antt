-- ===== src/Errors.antt =====
-- src/domain/shared/errors.py: the domain exceptions as values. A reason stands for the message
-- that the code gives the exception.
use schedule_appointments.Base.{◌≡◌, refl}

pub data Reason : Type 0 where
  short_duration not_in_future wrong_status negative_amount : Reason
  empty_name empty_slug empty_phone negative_price low_capacity : Reason
  bad_day bad_times overlapping_ranges empty_schedule : Reason
  no_service no_professional no_client no_appointment no_membership no_plan no_hours : Reason
  foreign_business inactive not_assigned class_full slot_taken already_attended : Reason
  already_member naive_time no_contact too_far no_external_id : Reason
  renew_cancelled renew_frozen bad_email no_token no_tenant other_tenant : Reason
  bad_slug no_slug_left short_password no_industry email_taken no_business : Reason
  bad_credentials bad_session bad_token : Reason

-- The last five are no domain exceptions: Python raises `attribute_error` at the call of a method that an
-- object does not have, `type_error` at a call that leaves out an argument, and `value_error` for a date
-- that does not exist; the database raises `integrity_error` for a row that refers to a missing one;
-- `endless` is a loop that the model stops for want of fuel.
pub data DomainError : Type 0 where
  not_found conflict validation tenant_isolation business_rule authentication : Reason → DomainError
  attribute_error type_error value_error integrity_error endless : DomainError

pub data Result {ℓ} (A : Type ℓ) : Type ℓ where
  ok : A → Result A
  err : DomainError → Result A

-- A method of a mutable object: what it wrote before an exception stays written.
abbrev pub Method {ℓ} : Type ℓ → Type ℓ
Method S = S → Result (Unit {0}) × S

module _ {ℓ} {S : Type ℓ} where
  abbrev resume : Result (Unit {0}) × S → Method S → Result (Unit {0}) × S
  resume (ok _, s) k = k s
  resume (err e, s) k = (err e, s)

  infixl 5 ◌>>◌
  abbrev pub ◌>>◌ : Method S → Method S → Method S
  ◌>>◌ m k s = resume (m s) k

  abbrev pub modify : (S → S) → Method S
  modify f s = (ok tt, f s)

  -- The object after a method call, where the call does not raise.
  abbrev pub called : Result (Unit {0}) × S → Result S
  called (ok _, s) = ok s
  called (err e, s) = err e

-- Calls that may raise, one after another.
module _ {ℓ κ} {A : Type ℓ} {B : Type κ} where
  abbrev pub then_try : Result A → (A → Result B) → Result B
  then_try (ok a) f = f a
  then_try (err e) f = err e

  -- Both of two calls succeed where the whole does.
  pub then_try-eq-ok :
      (r : Result A) (f : A → Result B) {b : B}
      → then_try r f ≡ ok b
      → (a : A) × (r ≡ ok a) × (f a ≡ ok b)
  then_try-eq-ok (ok a) f h = (a, refl, h)
  then_try-eq-ok (err e) f h = cc

module _ {ℓ} {A : Type ℓ} where
  pub ok-injective : {a b : A} → ok a ≡ ok b → a ≡ b
  ok-injective h = cc
