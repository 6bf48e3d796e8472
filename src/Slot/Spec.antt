-- ===== src/Slot/Spec.antt =====
-- What an evaluation says: a closed form of the loop, its independence of the order of the rows and
-- of rows that do not overlap, and the rule that it decides.
use mathlib.Core.List.{Permᴰ}
use schedule_appointments.Base.{
  ℕ, suc, ◌+◌, ◌-◌, ◌<◌, ◌≡◌, ◌≢◌, refl, ◌↔◌, inl, inr, Bool, true, false, ◌&&◌, ◌||◌, not, some,
  List, [], ◌∷◌, arith, leb, ◌==◌, if◌then◌else◌, keep, any, count, is_empty, any-perm, count-perm,
  any-keep, count-keep, Bool-cases, All,
}
use schedule_appointments.Appointment.{Appointment, ends_at}
use schedule_appointments.Slot.{
  SlotEvaluation, Candidate, capacity_of, overlaps, blocked_slot, class_loop, evaluate_slot,
  is_bookable,
}

-- An overlapping appointment that closes the slot: any, for a one-to-one service; for a group class
-- an exclusive one, or another session of the class.
abbrev pub blocks : Candidate → Appointment → Bool
blocks c a =
    overlaps c a
    && (leb c.capacity 1
        || leb (capacity_of c.caps a.service_id) 1
        || (a.service_id == c.service_id && not (a.scheduled_at == c.start)))

-- An overlapping appointment that has a place in the same session of the class.
abbrev pub seats : Candidate → Appointment → Bool
seats c a = overlaps c a && (a.service_id == c.service_id && a.scheduled_at == c.start)

-- The loop in closed form.
abbrev settled : Candidate → ℕ → Bool → SlotEvaluation
settled c taken true = blocked_slot c
settled c taken false = record {
  start = c.start;
  capacity = c.capacity;
  remaining = c.capacity - taken;
  blocked = false;
}

class_loop-settled :
    (c : Candidate) (taken : ℕ) (xs : List Appointment)
    → leb c.capacity 1 ≡ false
    → class_loop c taken (keep (overlaps c) xs)
      ≡ settled c (taken + count (seats c) xs) (any (blocks c) xs)
unfolding class_loop
class_loop-settled c taken [] h = ground arith
class_loop-settled c taken (a ∷ xs) h =
    ground (arith, class_loop-settled c taken xs h, class_loop-settled c (suc taken) xs h)

abbrev pub closed_form : Candidate → List Appointment → SlotEvaluation
closed_form c xs =
    if leb c.capacity 1
    then record {
      start = c.start;
      capacity = 1;
      remaining = if any (blocks c) xs then 0 else 1;
      blocked = any (blocks c) xs;
    }
    else settled c (count (seats c) xs) (any (blocks c) xs)

is_empty-keep :
    (c : Candidate) (xs : List Appointment)
    → leb c.capacity 1 ≡ true
    → is_empty (keep (overlaps c) xs) ≡ not (any (blocks c) xs)
is_empty-keep c [] h = refl
is_empty-keep c (a ∷ xs) h = ground (arith, is_empty-keep c xs h)

-- The loop computes what a count and a test over all booked rows say: whether some row blocks the
-- slot, and how many seats of the session are taken.
pub evaluate_slot-closed_form :
    (c : Candidate) (xs : List Appointment) → evaluate_slot c xs ≡ closed_form c xs
unfolding evaluate_slot
evaluate_slot-closed_form c xs = elim (Bool-cases (leb c.capacity 1)) [
  | inl one ↦ ground (arith, is_empty-keep c xs one)
  | inr group ↦ ground (arith, class_loop-settled c 0 xs group)
]

-- The order of the rows does not matter: a permutation of the booked appointments is evaluated alike.
pub evaluate_slot-perm :
    (c : Candidate) (xs ys : List Appointment)
    → Permᴰ xs ys
    → evaluate_slot c xs ≡ evaluate_slot c ys
evaluate_slot-perm c xs ys p =
    rw (evaluate_slot-closed_form c xs, evaluate_slot-closed_form c ys)
      (rw (any-perm (blocks c) p, count-perm (seats c) p))

-- Rows that do not overlap the slot may be left out.
pub evaluate_slot-keep :
    (c : Candidate) (q : Appointment → Bool) (xs : List Appointment)
    → ((a : Appointment) → overlaps c a ≡ true → q a ≡ true)
    → evaluate_slot c (keep q xs) ≡ evaluate_slot c xs
evaluate_slot-keep c q xs h =
    rw (evaluate_slot-closed_form c (keep q xs), evaluate_slot-closed_form c xs)
      (rw (
        any-keep (blocks c) q xs (λ a b. h a (ground arith)),
        count-keep (seats c) q xs (λ a b. h a (ground arith)),
      ))

-- The half-open intervals of the slot and of another appointment than the excluded one intersect.
abbrev pub Overlaps : Candidate → Appointment → Type 0
Overlaps c a = (c.exclude ≢ some a.id) × (c.start < ends_at a) × (a.scheduled_at < c.stop)

pub overlaps_iff : (c : Candidate) (a : Appointment) → (overlaps c a ≡ true) ↔ Overlaps c a
overlaps_iff c a = ground arith

-- What the rules ask of each booked appointment.
abbrev pub Tolerates : Candidate → Appointment → Type 0
Tolerates c a =
    Overlaps c a
    → (1 < c.capacity)
      × (1 < capacity_of c.caps a.service_id)
      × (a.service_id ≡ c.service_id → a.scheduled_at ≡ c.start)

-- The slot can be booked: every row is tolerated, and a class has a place left.
abbrev pub Admits : Candidate → List Appointment → Type 0
Admits c xs = All (Tolerates c) xs × ((1 < c.capacity) → count (seats c) xs < c.capacity)

blocks_of_Tolerates : (c : Candidate) (a : Appointment) → Tolerates c a → blocks c a ≡ false
blocks_of_Tolerates c a h = elim (Bool-cases (overlaps c a)) [
  | inl o ↦ let t = h ((overlaps_iff c a).0 o) in ground (arith, t)
  | inr o ↦ rw o
]

pub blocks_iff : (c : Candidate) (a : Appointment) → (blocks c a ≡ false) ↔ Tolerates c a
blocks_iff c a = (λ h o. ground arith, blocks_of_Tolerates c a)

pub any-blocks_iff :
    (c : Candidate) (xs : List Appointment) → (any (blocks c) xs ≡ false) ↔ All (Tolerates c) xs
any-blocks_iff c [] = (λ _. tt, λ _. refl)
any-blocks_iff c (a ∷ xs) = (
  λ h. ((blocks_iff c a).0 (ground arith), (any-blocks_iff c xs).0 (ground arith)),
  λ h. ground (arith, (blocks_iff c a).1 h.0, (any-blocks_iff c xs).1 h.1),
)

-- An evaluation offers the slot exactly when the rules admit it.
pub is_bookable_iff :
    (c : Candidate) (xs : List Appointment)
    → (is_bookable (evaluate_slot c xs) ≡ true) ↔ Admits c xs
unfolding is_bookable
is_bookable_iff c xs = rw (evaluate_slot-closed_form c xs) (
  λ h. ((any-blocks_iff c xs).0 (ground arith), ground arith),
  λ h. let free = (any-blocks_iff c xs).1 h.0 in ground arith,
)
