-- ===== src/Enrollment/Manage.antt =====
-- src/application/membership/manage_membership.py
use schedule_appointments.Base.{ℕ, Option, none}
use schedule_appointments.Base.Int.{ℤ}
use schedule_appointments.Base.Text.{Text}
use schedule_appointments.Errors.{Result, ok, err, not_found, no_membership}
use schedule_appointments.Membership
use schedule_appointments.Membership.{Membership, BillingPeriod, Status}
use schedule_appointments.Store.Tables.{◌>>=◌, ◌>>◌, Tx, pure, query, require, lift}
use schedule_appointments.Store.Memberships

-- Which of the use cases runs, with what its input gives it.
pub data Action : Type 0 where
  renew : Option BillingPeriod → Action
  freeze unfreeze : Action
  cancel : Option Text → Action

-- `MembershipActionOutput`
pub record ActionOutput : Type 0 where
  pub membership_id : ℕ
  pub client_id : ℕ
  pub status : Status
  pub starts_at : Option ℕ
  pub ends_at : Option ℕ
  pub days_remaining : ℤ
  pub renewal_count : ℕ
  pub frozen_days_used : ℕ

-- `_apply` of each use case.
unfoldable pub apply : Action → ℕ → Membership → Membership.Outcome
apply (renew period) now m = Membership.renew none period now m
apply freeze now m = Membership.freeze none now m
apply unfreeze now m = Membership.unfreeze none now m
apply (cancel reason) now m = (ok tt, Membership.cancel none reason now m)

abbrev pub changed : Membership.Outcome → Result Membership
changed (ok _, m) = ok m
changed (err e, m) = err e

-- `_to_output`, at the time of the answer.
abbrev pub action_output : ℕ → Membership → ActionOutput
action_output now m = record {
  membership_id = m.id;
  client_id = m.client_id;
  status = Membership.effective_status now m;
  starts_at = m.starts_at;
  ends_at = m.ends_at;
  days_remaining = Membership.days_remaining now m;
  renewal_count = m.renewal_count;
  frozen_days_used = m.frozen_days_used;
}

unfoldable pub manage_membership : ℕ → ℕ → ℕ → Action → Tx ActionOutput
unfolding apply
manage_membership tenant now id action = do
  m ← require (← query (Memberships.get_by_id tenant id)) (not_found no_membership)
  m' ← lift (changed (apply action now m))
  Memberships.update tenant m'
  pure (action_output now m')
