-- ===== src/Appointment/Lifecycle.antt =====
-- The lifecycle of an appointment: which method leads from which status to which, and what no
-- sequence of calls can undo.
use schedule_appointments.Base.{
  sym, subst, ◌≢◌, ◌↔◌, inl, inr, ℕ, ◌≤◌, ◌≡◌, refl, ◌∙◌, ap, ◌⊎◌, Bool, true, false, not, Option,
  none, List, [], ◌∷◌, arith, is_none,
}
use schedule_appointments.Base.Int.{ℤ, pos}
use schedule_appointments.Base.Text.{Text}
use schedule_appointments.Errors.{ok}
use schedule_appointments.Appointment
use schedule_appointments.Appointment.{
  Appointment, Status, pending, confirmed, completed, cancelled, no_show, rescheduled,
}

pub data Call : Type 0 where
  confirm : ℕ → Call
  cancel : Option Text → ℕ → Call
  reschedule : ℕ → Option ℤ → ℕ → Call
  complete : ℤ → ℕ → Call
  mark_no_show : ℕ → Call
  mark_reminder_sent : ℕ → Call

abbrev pub perform : Call → Appointment → Appointment.Outcome
perform (confirm now) a = Appointment.confirm now a
perform (cancel reason now) a = Appointment.cancel reason now a
perform (reschedule start d now) a = Appointment.reschedule start d now a
perform (complete amount now) a = Appointment.complete amount now a
perform (mark_no_show now) a = Appointment.mark_no_show now a
perform (mark_reminder_sent now) a = Appointment.mark_reminder_sent now a

-- What is left of the object after calls whose exceptions are caught.
abbrev pub perform_all : List Call → Appointment → Appointment
perform_all [] a = a
perform_all (c ∷ cs) a = perform_all cs (perform c a).1

-- The status changes of the state machine, as a table.
abbrev pub edge : Status → Status → Bool
edge pending pending = false
edge pending _ = true
edge confirmed pending = false
edge confirmed confirmed = false
edge confirmed _ = true
edge rescheduled pending = false
edge rescheduled confirmed = false
edge rescheduled rescheduled = false
edge rescheduled _ = true
edge no_show cancelled = true
edge no_show rescheduled = true
edge no_show _ = false
edge completed _ = false
edge cancelled _ = false

perform-edge :
    (c : Call) (a : Appointment)
    → ((perform c a).1.status ≡ a.status) ⊎ (edge a.status (perform c a).1.status ≡ true)
unfolding Appointment.confirm Appointment.cancel Appointment.reschedule Appointment.complete
    Appointment.mark_no_show Appointment.mark_reminder_sent
perform-edge (confirm now) a = ground arith
perform-edge (cancel reason now) a = ground arith
perform-edge (reschedule start d now) a = ground arith
perform-edge (complete amount now) a = ground arith
perform-edge (mark_no_show now) a = ground arith
perform-edge (mark_reminder_sent now) a = ground arith

-- A call that takes the edge to a status.
abbrev call_to : Status → Call
call_to pending = mark_no_show 0
call_to confirmed = confirm 0
call_to completed = complete (pos 0) 0
call_to cancelled = cancel none 0
call_to no_show = mark_no_show 0
call_to rescheduled = reschedule 1 none 0

edge-call_to :
    (a : Appointment) (t : Status) → edge a.status t ≡ true → (perform (call_to t) a).1.status ≡ t
unfolding Appointment.confirm Appointment.cancel Appointment.reschedule Appointment.complete
    Appointment.mark_no_show
edge-call_to a pending h = ground arith
edge-call_to a confirmed h = ground arith
edge-call_to a completed h = ground arith
edge-call_to a cancelled h = ground arith
edge-call_to a no_show h = ground arith
edge-call_to a rescheduled h = ground arith

edge_irrefl : (t : Status) → edge t t ≡ true → ⊥
edge_irrefl t h = ground arith

-- The state machine of the methods is the table `edge`: a status has an edge to another exactly when
-- some single method call takes an appointment from the one to the other.
pub status_edges :
    (a : Appointment) (t : Status)
    → (edge a.status t ≡ true) ↔ ((c : Call) × ((perform c a).1.status ≡ t) × (t ≢ a.status))
status_edges a t = (
  λ h. (
    call_to t,
    edge-call_to a t h,
    λ e. edge_irrefl a.status (subst (λ u. edge a.status u ≡ true) e h),
  ),
  λ (c, p, n). taken c p n (perform-edge c a),
)
  where
    taken :
        (c : Call)
        → (perform c a).1.status ≡ t
        → t ≢ a.status
        → ((perform c a).1.status ≡ a.status) ⊎ (edge a.status (perform c a).1.status ≡ true)
        → edge a.status t ≡ true
    taken c p n (inl e) = absurd (n (sym p ∙ e))
    taken c p n (inr e) = subst (λ u. edge a.status u ≡ true) p e

-- What a report reads of an appointment.
abbrev pub SameRecord : Appointment → Appointment → Type 0
SameRecord a b =
    (b.status ≡ a.status)
    × (b.scheduled_at ≡ a.scheduled_at)
    × (b.duration_minutes ≡ a.duration_minutes)
    × (b.amount_charged ≡ a.amount_charged)
    × (b.completed_at ≡ a.completed_at)
    × (b.cancelled_at ≡ a.cancelled_at)
    × (b.cancelled_reason ≡ a.cancelled_reason)

perform-closed :
    (c : Call) (a : Appointment)
    → Appointment.is_closed a.status ≡ true
    → SameRecord a (perform c a).1
unfolding Appointment.confirm Appointment.cancel Appointment.reschedule Appointment.complete
    Appointment.mark_no_show Appointment.mark_reminder_sent
perform-closed (confirm now) a h = ground arith
perform-closed (cancel reason now) a h = ground arith
perform-closed (reschedule start d now) a h = ground arith
perform-closed (complete amount now) a h = ground arith
perform-closed (mark_no_show now) a h = ground arith
perform-closed (mark_reminder_sent now) a h = ground arith

SameRecord-trans : (a b c : Appointment) → SameRecord a b → SameRecord b c → SameRecord a c
SameRecord-trans a b c x y =
    (y.0 ∙ x.0, y.1 ∙ x.1, y.2 ∙ x.2, y.3 ∙ x.3, y.4 ∙ x.4, y.5 ∙ x.5, y.6 ∙ x.6)

-- No sequence of method calls on a completed or a cancelled appointment changes its status, its
-- time, the amount charged or what was recorded when it was closed.
pub closed_forever :
    (cs : List Call) (a : Appointment)
    → Appointment.is_closed a.status ≡ true
    → SameRecord a (perform_all cs a)
closed_forever [] a h = (refl, refl, refl, refl, refl, refl, refl)
closed_forever (c ∷ cs) a h =
    let b = (perform c a).1 in
    let same = perform-closed c a h in
    SameRecord-trans a b (perform_all cs b) same
      (closed_forever cs b (ap Appointment.is_closed same.0 ∙ h))

-- The fields that closing writes agree with the status, and the duration is at least a minute.
pub record IsConsistent (a : Appointment) : Type 0 where
  pub lasts : 1 ≤ a.duration_minutes
  pub charged : Appointment.is_completed a.status ≡ not (is_none a.amount_charged)
  pub closed_at : is_none a.completed_at ≡ is_none a.amount_charged
  pub cancelled_at : a.status ≡ cancelled → is_none a.cancelled_at ≡ false

book-IsConsistent :
    (new_id now : ℕ) (b : Appointment.Booking) {a : Appointment}
    → Appointment.book new_id now b ≡ ok a
    → IsConsistent a
unfolding Appointment.book
book-IsConsistent new_id now b h = ground arith

perform-IsConsistent : (c : Call) (a : Appointment) → IsConsistent a → IsConsistent (perform c a).1
unfolding Appointment.confirm Appointment.cancel Appointment.reschedule Appointment.complete
    Appointment.mark_no_show Appointment.mark_reminder_sent
perform-IsConsistent (confirm now) a h = ground arith
perform-IsConsistent (cancel reason now) a h = ground arith
perform-IsConsistent (reschedule start d now) a h = ground arith
perform-IsConsistent (complete amount now) a h = ground arith
perform-IsConsistent (mark_no_show now) a h = ground arith
perform-IsConsistent (mark_reminder_sent now) a h = ground arith

perform_all-IsConsistent :
    (cs : List Call) (a : Appointment) → IsConsistent a → IsConsistent (perform_all cs a)
perform_all-IsConsistent [] a h = h
perform_all-IsConsistent (c ∷ cs) a h =
    perform_all-IsConsistent cs (perform c a).1 (perform-IsConsistent c a h)

-- A booked appointment, after any calls, failed ones included: it lasts a minute or more, it has
-- an amount charged and a completion time exactly while it is completed, and a cancelled one has
-- the time of its cancellation.
pub booked-IsConsistent :
    (new_id now : ℕ) (b : Appointment.Booking) (a : Appointment) (cs : List Call)
    → Appointment.book new_id now b ≡ ok a
    → IsConsistent (perform_all cs a)
booked-IsConsistent new_id now b a cs h =
    perform_all-IsConsistent cs a (book-IsConsistent new_id now b h)
