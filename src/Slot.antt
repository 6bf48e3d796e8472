-- ===== src/Slot.antt =====
-- src/application/appointment/slot_occupancy.py: the occupancy rules that availability, booking and
-- rescheduling share.
pub mod Spec
use schedule_appointments.Base.{
  ℕ, suc, ◌-◌, Bool, true, false, ◌&&◌, not, Option, List, [], ◌∷◌, leb, ltb, ◌==◌, if◌then◌else◌,
  same_id, keep, is_empty,
}
use schedule_appointments.Appointment.{Appointment, ends_at}

pub record SlotEvaluation : Type 0 where
  pub start : ℕ
  pub capacity : ℕ
  pub remaining : ℕ
  pub blocked : Bool

unfoldable pub is_bookable : SlotEvaluation → Bool
is_bookable e = not e.blocked && ltb 0 e.remaining

-- A dict from service ids to capacities.
abbrev pub Capacities : Type 0
Capacities = List (ℕ × ℕ)

-- `caps.get(service_id, 1)`
unfoldable pub capacity_of : Capacities → ℕ → ℕ
capacity_of [] k = 1
capacity_of ((j, c) ∷ caps) k = if j == k then c else capacity_of caps k

-- The keyword arguments of `evaluate_slot`, but for the booked appointments.
pub record Candidate : Type 0 where
  pub start : ℕ
  pub stop : ℕ
  pub service_id : ℕ
  pub capacity : ℕ
  pub caps : Capacities
  pub exclude : Option ℕ

abbrev pub overlaps : Candidate → Appointment → Bool
overlaps c a =
    not (same_id c.exclude a.id) && (ltb c.start (ends_at a) && ltb a.scheduled_at c.stop)

abbrev pub blocked_slot : Candidate → SlotEvaluation
blocked_slot c = record { start = c.start; capacity = c.capacity; remaining = 0; blocked = true }

-- The loop over the overlapping appointments of a group class.
unfoldable pub class_loop : Candidate → ℕ → List Appointment → SlotEvaluation
unfolding capacity_of
class_loop c taken [] = record {
  start = c.start;
  capacity = c.capacity;
  remaining = c.capacity - taken;
  blocked = false;
}
class_loop c taken (a ∷ rest) =
    let seated = class_loop c (suc taken) rest in
    let ignored = class_loop c taken rest in
    if leb (capacity_of c.caps a.service_id) 1
    then blocked_slot c
    else if a.service_id == c.service_id
    then if a.scheduled_at == c.start then seated else blocked_slot c
    else ignored

unfoldable pub evaluate_slot : Candidate → List Appointment → SlotEvaluation
unfolding class_loop
evaluate_slot c booked =
    let overlapping = keep (overlaps c) booked in
    if leb c.capacity 1
    then record {
      start = c.start;
      capacity = 1;
      remaining = if is_empty overlapping then 1 else 0;
      blocked = not (is_empty overlapping);
    }
    else class_loop c 0 overlapping
