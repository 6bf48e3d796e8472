-- ===== src/Membership/Validity.antt =====
-- The read path of a membership against its write path.
use schedule_appointments.Base.{
  ℕ, ◌+◌, ◌-◌, ◌≤◌, ◌<◌, ◌≡◌, ◌↔◌, true, some, arith, leb, inl, inr, Bool-cases,
}
use schedule_appointments.Base.Int.{pos}
use schedule_appointments.Base.Clock.{days, days_from, ceil_days}
use schedule_appointments.Membership
use schedule_appointments.Membership.{
  Membership, active, effective_status, is_current, days_remaining,
}

-- Persisting the expiry at one moment is not seen by any reader at that moment or later: the
-- effective status, the entitlement and the days remaining are what they were without it.
pub expire_if_due_unseen :
    (moment later : ℕ) (m : Membership)
    → moment ≤ later
    → let m' = (Membership.expire_if_due moment m).1 in
      (effective_status later m' ≡ effective_status later m)
      × (is_current later m' ≡ is_current later m)
      × (days_remaining later m' ≡ days_remaining later m)
unfolding Membership.expire_if_due is_current days_remaining
expire_if_due_unseen moment later m h = ground arith

-- A membership entitles its client exactly while its status is active and the moment lies from its
-- start up to, and not at, its end.
pub is_current_iff :
    (moment s e : ℕ) (m : Membership)
    → m.starts_at ≡ some s
    → m.ends_at ≡ some e
    → (is_current moment m ≡ true) ↔ ((m.status ≡ active) × (s ≤ moment) × (moment < e))
unfolding is_current
is_current_iff moment s e m h k = ground arith

-- The days remaining are never negative and are 0 exactly from the end on; before the end they are the
-- least number of whole days that cover the time up to it.
pub days_remaining_bounds :
    (moment e : ℕ) (m : Membership)
    → m.ends_at ≡ some e
    → (n : ℕ) × (days_remaining moment m ≡ pos n)
      × ((n ≡ 0) ↔ (e ≤ moment))
      × (e ≤ moment + days n)
      × (moment < e → moment + days n < e + days 1)
unfolding days_remaining days_from ceil_days
days_remaining_bounds moment e m h = elim (Bool-cases (leb e moment)) [
  | inl over ↦ (0, ground arith, ground arith, ground arith, ground arith)
  | inr before ↦ (ceil_days (e - moment), ground arith, ground arith, ground arith, ground arith)
]
