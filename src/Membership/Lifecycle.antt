-- ===== src/Membership/Lifecycle.antt =====
-- The lifecycle of a membership: the status changes of its commands, and how they move its end.
use schedule_appointments.Base.{
  sym, subst, ◌≢◌, ◌↔◌, inl, inr, ℕ, suc, ◌+◌, ◌-◌, ◌≤◌, ◌<◌, ◌≡◌, refl, ap, ◌∙◌, ◌⊎◌, Bool, true,
  false, Option, none, some, List, [], ◌∷◌, arith, or_else, is_none, length,
}
use schedule_appointments.Base.Text.{Text}
use schedule_appointments.Base.Clock.{DateTime, day, days, days-ceil_days, days-ceil_days-lt}
use schedule_appointments.Errors.{ok}
use schedule_appointments.Membership
use schedule_appointments.Membership.{
  Membership, MembershipPlan, BillingPeriod, Status, active, frozen, expired, cancelled, add_to,
  period_days,
}

-- The commands, each with its optional moment and the time of the call.
pub data Command : Type 0 where
  renew : Option ℕ → Option BillingPeriod → ℕ → Command
  freeze unfreeze : Option ℕ → ℕ → Command
  expire_if_due : ℕ → Command
  cancel : Option ℕ → Option Text → ℕ → Command

abbrev pub perform : Command → Membership → Membership
perform (renew at period now) m = (Membership.renew at period now m).1
perform (freeze at now) m = (Membership.freeze at now m).1
perform (unfreeze at now) m = (Membership.unfreeze at now m).1
perform (expire_if_due moment) m = (Membership.expire_if_due moment m).1
perform (cancel at reason now) m = Membership.cancel at reason now m

abbrev pub perform_all : List Command → Membership → Membership
perform_all [] m = m
perform_all (c ∷ cs) m = perform_all cs (perform c m)

-- The status changes, as a table.
abbrev pub edge : Status → Status → Bool
edge active active = false
edge active _ = true
edge frozen active = true
edge frozen cancelled = true
edge frozen _ = false
edge expired active = true
edge expired cancelled = true
edge expired _ = false
edge cancelled _ = false

perform-edge :
    (c : Command) (m : Membership)
    → ((perform c m).status ≡ m.status) ⊎ (edge m.status (perform c m).status ≡ true)
unfolding Membership.renew Membership.freeze Membership.unfreeze Membership.expire_if_due
    Membership.cancel
perform-edge (renew at period now) m = ground arith
perform-edge (freeze at now) m = ground arith
perform-edge (unfreeze at now) m = ground arith
perform-edge (expire_if_due moment) m = ground arith
perform-edge (cancel at reason now) m = ground arith

-- What every granted membership keeps: it has its dates, and it is frozen since some moment exactly
-- while its status says so.
pub record IsDated (m : Membership) : Type 0 where
  pub start : is_none m.starts_at ≡ false
  pub stop : is_none m.ends_at ≡ false
  pub freeze : m.status ≡ frozen → is_none m.frozen_at ≡ false

-- The end of a membership, 0 where it has none.
abbrev pub ending : Membership → ℕ
ending m = or_else m.ends_at 0

perform-IsDated : (c : Command) (m : Membership) → IsDated m → IsDated (perform c m)
unfolding Membership.renew Membership.freeze Membership.unfreeze Membership.expire_if_due
    Membership.cancel
perform-IsDated (renew at period now) m h = ground arith
perform-IsDated (freeze at now) m h = ground arith
perform-IsDated (unfreeze at now) m h = ground arith
perform-IsDated (expire_if_due moment) m h = ground arith
perform-IsDated (cancel at reason now) m h = ground arith

-- No command brings the end forward.
perform-ending : (c : Command) (m : Membership) → ending m ≤ ending (perform c m)
unfolding Membership.renew Membership.freeze Membership.unfreeze Membership.expire_if_due
    Membership.cancel
perform-ending (renew at period now) m = ground arith
perform-ending (freeze at now) m = ground arith
perform-ending (unfreeze at now) m = ground arith
perform-ending (expire_if_due moment) m = ground arith
perform-ending (cancel at reason now) m = ground arith

-- A command that takes the edge to a status of a dated membership.
abbrev command_to : Status → Status → Membership → Command
command_to frozen active m = unfreeze none 0
command_to _ active m = renew none none 0
command_to _ frozen m = freeze none 0
command_to _ expired m = expire_if_due (ending m)
command_to _ cancelled m = cancel none none 0

edge-command_to :
    (m : Membership) (t : Status)
    → IsDated m
    → edge m.status t ≡ true
    → (perform (command_to m.status t m) m).status ≡ t
unfolding Membership.renew Membership.freeze Membership.unfreeze Membership.expire_if_due
    Membership.cancel
edge-command_to m active d h = ground arith
edge-command_to m frozen d h = ground arith
edge-command_to m expired d h = ground arith
edge-command_to m cancelled d h = ground arith

edge_irrefl : (t : Status) → edge t t ≡ true → ⊥
edge_irrefl t h = ground arith

-- For a membership that has its dates, the state machine of the commands is the table `edge`: a
-- status has an edge to another exactly when some single command takes the membership from the one
-- to the other.
pub command_edges :
    (m : Membership) (t : Status)
    → IsDated m
    → (edge m.status t ≡ true) ↔ ((c : Command) × ((perform c m).status ≡ t) × (t ≢ m.status))
command_edges m t d = (
  λ h. (
    command_to m.status t m,
    edge-command_to m t d h,
    λ e. edge_irrefl m.status (subst (λ u. edge m.status u ≡ true) e h),
  ),
  λ (c, p, n). taken c p n (perform-edge c m),
)
  where
    taken :
        (c : Command)
        → (perform c m).status ≡ t
        → t ≢ m.status
        → ((perform c m).status ≡ m.status) ⊎ (edge m.status (perform c m).status ≡ true)
        → edge m.status t ≡ true
    taken c p n (inl e) = absurd (n (sym p ∙ e))
    taken c p n (inr e) = subst (λ u. edge m.status u ≡ true) p e

perform_all-IsDated : (cs : List Command) (m : Membership) → IsDated m → IsDated (perform_all cs m)
perform_all-IsDated [] m h = h
perform_all-IsDated (c ∷ cs) m h = perform_all-IsDated cs (perform c m) (perform-IsDated c m h)

perform_all-ending : (cs : List Command) (m : Membership) → ending m ≤ ending (perform_all cs m)
perform_all-ending [] m = omega arith
perform_all-ending (c ∷ cs) m =
    omega (arith, perform-ending c m, perform_all-ending cs (perform c m))

grant-IsDated :
    (new_id now tenant business client : ℕ) (plan : MembershipPlan) (start : Option DateTime)
    (notes : Option Text) (m : Membership)
    → Membership.grant new_id now tenant business client plan start notes ≡ ok m
    → IsDated m × (or_else m.starts_at 0 + days (period_days plan.billing_period) ≡ ending m)
unfolding Membership.grant
grant-IsDated new_id now tenant business client plan none notes m h = ground arith
grant-IsDated new_id now tenant business client plan (some s) notes m h = ground arith

-- A granted membership, after any commands, has a start and an end and, while it is frozen, the
-- moment of the freeze; and its end is at least one period of the plan after the granted start.
pub granted-IsDated :
    (new_id now tenant business client : ℕ) (plan : MembershipPlan) (start : Option DateTime)
    (notes : Option Text) (m : Membership) (cs : List Command)
    → Membership.grant new_id now tenant business client plan start notes ≡ ok m
    → IsDated (perform_all cs m)
      × (or_else m.starts_at 0 + days (period_days plan.billing_period) ≤ ending (perform_all cs m))
granted-IsDated new_id now tenant business client plan start notes m cs h =
    let g = grant-IsDated new_id now tenant business client plan start notes m h in
    (perform_all-IsDated cs m g.0, omega (arith, g.1, perform_all-ending cs m))

perform-cancelled : (c : Command) (m : Membership) → m.status ≡ cancelled → perform c m ≡ m
unfolding Membership.renew Membership.freeze Membership.unfreeze Membership.expire_if_due
    Membership.cancel
perform-cancelled (renew at period now) m h = ground arith
perform-cancelled (freeze at now) m h = ground arith
perform-cancelled (unfreeze at now) m h = ground arith
perform-cancelled (expire_if_due moment) m h = ground arith
perform-cancelled (cancel at reason now) m h = ground arith

-- No sequence of commands changes anything of a cancelled membership.
pub cancelled_forever :
    (cs : List Command) (m : Membership) → m.status ≡ cancelled → perform_all cs m ≡ m
cancelled_forever [] m h = refl
cancelled_forever (c ∷ cs) m h = rw (perform-cancelled c m h) (cancelled_forever cs m h)

-- Freezing an active membership at one moment and unfreezing it at a later one succeeds, keeps the
-- time that was left at the freeze or adds less than a day to it, books the whole days added as
-- frozen days, and leaves the membership active and not frozen.
pub freeze_unfreeze :
    (m : Membership) (e from to now now' : ℕ)
    → m.status ≡ active
    → m.ends_at ≡ some e
    → from ≤ to
    → let (r, iced) = Membership.freeze (some from) now m in
      let (r', thawed) = Membership.unfreeze (some to) now' iced in
      (r ≡ ok tt)
      × (r' ≡ ok tt)
      × (e + to ≤ ending thawed + from)
      × (ending thawed + from < e + to + day)
      × (ending thawed + days m.frozen_days_used ≡ e + days thawed.frozen_days_used)
      × (thawed.status ≡ active)
      × (thawed.frozen_at ≡ none)
unfolding Membership.freeze Membership.unfreeze
freeze_unfreeze m e from to now now' h k l =
    let low = days-ceil_days (to - from) in
    let high = days-ceil_days-lt (to - from) in ground (arith, low, high)

-- Renewals at given moments, each for a period of its own.
abbrev pub renew_all : List (ℕ × BillingPeriod) → Membership → Membership
renew_all [] m = m
renew_all ((at, p) ∷ rs) m = renew_all rs (Membership.renew (some at) (some p) at m).1

abbrev pub total_days : List (ℕ × BillingPeriod) → ℕ
total_days [] = 0
total_days ((_, p) ∷ rs) = period_days p + total_days rs

-- The renewals come before the end `e`.
abbrev pub AllBefore : ℕ → List (ℕ × BillingPeriod) → Type 0
AllBefore e [] = Unit
AllBefore e ((at, _) ∷ rs) = (at ≤ e) × AllBefore e rs

AllBefore-le :
    (e e' : ℕ) (rs : List (ℕ × BillingPeriod)) → e ≤ e' → AllBefore e rs → AllBefore e' rs
AllBefore-le e e' [] le h = tt
AllBefore-le e e' ((at, p) ∷ rs) le h = (omega arith, AllBefore-le e e' rs le h.1)

renew_early :
    (at e : ℕ) (p : BillingPeriod) (m : Membership)
    → m.status ≡ active
    → m.ends_at ≡ some e
    → at ≤ e
    → let m' = (Membership.renew (some at) (some p) at m).1 in
      (m'.status ≡ active)
      × (m'.ends_at ≡ some (add_to p e))
      × (m'.renewal_count ≡ suc m.renewal_count)
unfolding Membership.renew
renew_early at e p m h k l = ground arith

-- No paid day is lost by renewing early: renewals of an active membership that all come by its
-- present end move the end by exactly the sum of their periods, and each is counted.
pub renewals_add_up :
    (rs : List (ℕ × BillingPeriod)) (e : ℕ) (m : Membership)
    → m.status ≡ active
    → m.ends_at ≡ some e
    → AllBefore e rs
    → ((renew_all rs m).ends_at ≡ some (e + days (total_days rs)))
      × ((renew_all rs m).renewal_count ≡ m.renewal_count + length rs)
renewals_add_up [] e m h k b = (k ∙ ap some (omega arith), omega arith)
renewals_add_up ((at, p) ∷ rs) e m h k b =
    let s = renew_early at e p m h k b.0 in
    let later = AllBefore-le e (add_to p e) rs (omega arith) b.1 in
    let ih =
      renewals_add_up rs (add_to p e) (Membership.renew (some at) (some p) at m).1 s.0 s.1 later in
    (ih.0 ∙ ap some (omega arith), omega (arith, ih.1, s.2))
