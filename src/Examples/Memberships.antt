-- ===== src/Examples/Memberships.antt =====
-- A monthly membership through its commands.
use schedule_appointments.Base.{
  ℕ, ◌≡◌, ◌≢◌, ◌≤◌, ◌<◌, refl, ◌↔◌, true, none, some, List, [], ◌∷◌, ◌+◌, arith, length,
}
use schedule_appointments.Base.Text.{codes}
use schedule_appointments.Base.Int.{pos}
use schedule_appointments.Base.Clock.{aware, day, days}
use schedule_appointments.Errors.{ok}
use schedule_appointments.Membership
use schedule_appointments.Membership.{
  Membership, MembershipPlan, BillingPeriod, monthly, annual, active, cancelled, frozen,
  effective_status, is_current, days_remaining,
}
use schedule_appointments.Membership.Lifecycle.{
  Command, renew, freeze, unfreeze, perform, perform_all, edge, ending, IsDated, renew_all,
  total_days, command_edges, granted-IsDated, cancelled_forever, freeze_unfreeze, renewals_add_up,
}
use schedule_appointments.Membership.Validity.{
  expire_if_due_unseen, is_current_iff, days_remaining_bounds,
}
use schedule_appointments.Examples.Data.{now}

abbrev pub plan : MembershipPlan
plan = record {
  id = 5;
  tenant_id = 1;
  business_id = 10;
  name = codes "Gold";
  description = none;
  price = 9900;
  billing_period = monthly;
  is_active = true;
  created_at = 0;
  updated_at = 0;
}

abbrev pub gold : Membership
gold = record {
  id = 8;
  tenant_id = 1;
  business_id = 10;
  client_id = 50;
  membership_plan_id = 5;
  status = active;
  starts_at = some now;
  ends_at = some (now + days 30);
  billing_period = monthly;
  price_paid = 9900;
  frozen_at = none;
  frozen_days_used = 0;
  renewal_count = 0;
  cancelled_at = none;
  cancelled_reason = none;
  notes = none;
  created_at = now;
  updated_at = now;
}

command_edges_example :
    (edge active frozen ≡ true)
    ↔ ((c : Command) × ((perform c gold).status ≡ frozen) × (frozen ≢ active))
command_edges_example =
    command_edges gold frozen (record { start = refl; stop = refl; freeze = λ h. cc })

abbrev history : List Command
history = freeze (some (now + 1)) 0 ∷ unfreeze (some (now + 2)) 0 ∷ renew none none now ∷ []

granted-IsDated_example :
    IsDated (perform_all history gold) × (now + days 30 ≤ ending (perform_all history gold))
unfolding Membership.grant
granted-IsDated_example =
    granted-IsDated 8 now 1 10 50 plan (some (aware now)) none gold history refl

abbrev ended : Membership
ended = record gold { status = cancelled }

cancelled_forever_example : perform_all history ended ≡ ended
cancelled_forever_example = cancelled_forever history ended refl

freeze_unfreeze_example :
    let (r, iced) = Membership.freeze (some now) 0 gold in
    let (r', thawed) = Membership.unfreeze (some (now + days 2 + 5)) 0 iced in
    (r ≡ ok tt)
    × (r' ≡ ok tt)
    × (now + days 30 + (now + days 2 + 5) ≤ ending thawed + now)
    × (ending thawed + now < now + days 30 + (now + days 2 + 5) + day)
    × (ending thawed + days gold.frozen_days_used ≡ now + days 30 + days thawed.frozen_days_used)
    × (thawed.status ≡ active)
    × (thawed.frozen_at ≡ none)
freeze_unfreeze_example =
    freeze_unfreeze gold (now + days 30) now (now + days 2 + 5) 0 0 refl refl (omega arith)

abbrev twice : List (ℕ × BillingPeriod)
twice = (now + 1, monthly) ∷ (now + 2, annual) ∷ []

renewals_add_up_example :
    ((renew_all twice gold).ends_at ≡ some (now + days 30 + days (total_days twice)))
    × ((renew_all twice gold).renewal_count ≡ gold.renewal_count + length twice)
renewals_add_up_example = renewals_add_up twice (now + days 30) gold refl refl (omega arith)

expire_if_due_unseen_example :
    let m' = (Membership.expire_if_due (now + days 31) gold).1 in
    (effective_status (now + days 32) m' ≡ effective_status (now + days 32) gold)
    × (is_current (now + days 32) m' ≡ is_current (now + days 32) gold)
    × (days_remaining (now + days 32) m' ≡ days_remaining (now + days 32) gold)
expire_if_due_unseen_example =
    expire_if_due_unseen (now + days 31) (now + days 32) gold (omega arith)

is_current_iff_example :
    (is_current (now + 1) gold ≡ true)
    ↔ ((active ≡ active) × (now ≤ now + 1) × (now + 1 < now + days 30))
is_current_iff_example = is_current_iff (now + 1) now (now + days 30) gold refl refl

days_remaining_bounds_example :
    (n : ℕ) × (days_remaining (now + days 1) gold ≡ pos n)
    × ((n ≡ 0) ↔ (now + days 30 ≤ now + days 1))
    × (now + days 30 ≤ now + days 1 + days n)
    × (now + days 1 < now + days 30 → now + days 1 + days n < now + days 30 + days 1)
days_remaining_bounds_example = days_remaining_bounds (now + days 1) (now + days 30) gold refl
