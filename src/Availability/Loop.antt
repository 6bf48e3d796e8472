-- ===== src/Availability/Loop.antt =====
-- The loop of `_slots_in_range`: it ends, and it returns exactly the bookable starts of its grid.
use schedule_appointments.Base.{
  ℕ, zero, suc, ◌+◌, ◌*◌, ◌≤◌, ◌<◌, ◌≡◌, refl, subst, ◌↔◌, inl, inr, true, false, Option, some,
  List, [], map, arith, leb, ◌==◌, Bool-cases,
}
use schedule_appointments.Slot.{is_bookable}
use schedule_appointments.Store.Services.{contains}
use schedule_appointments.Availability.{Grid, SlotAvailability, slot_at, with_slot, slots_in_range}

abbrev pub starts : List SlotAvailability → List ℕ
starts xs = map (λ (x : SlotAvailability). x.start) xs

-- A start on the grid from `slot` on, whose slot ends by the closing time and can be booked.
abbrev pub IsOnGrid : Grid → ℕ → ℕ → Type 0
IsOnGrid g slot t =
    (k : ℕ) × (t ≡ slot + k * g.step)
    × (t + g.duration ≤ g.close)
    × (is_bookable (slot_at g t) ≡ true)

abbrev pub IsExact : Grid → ℕ → Option (List SlotAvailability) → Type 0
IsExact g slot r =
    (xs : List SlotAvailability) × (r ≡ some xs)
    × ((t : ℕ) → (contains t (starts xs) ≡ true) ↔ IsOnGrid g slot t)

module _ (g : Grid) (slot : ℕ) (rest : List SlotAvailability) (t : ℕ) where
  round_sound :
      slot + g.duration ≤ g.close
      → (contains t (starts rest) ≡ true → IsOnGrid g (slot + g.step) t)
      → contains t (starts (with_slot g slot rest)) ≡ true
      → IsOnGrid g slot t
  round_sound fits later h = elim (Bool-cases (is_bookable (slot_at g slot))) [
    | inl free ↦ elim (Bool-cases (slot == t)) [
      | inl here ↦
          let e : slot ≡ t = ground arith in
          (0, omega arith, omega arith, subst (λ s. is_bookable (slot_at g s) ≡ true) e free)
      | inr there ↦ let (k, p, q, b) = later (ground arith) in (suc k, omega arith, q, b)
    ]
    | inr full ↦ let (k, p, q, b) = later (rw full at h) in (suc k, omega arith, q, b)
  ]

  round_complete :
      (IsOnGrid g (slot + g.step) t → contains t (starts rest) ≡ true)
      → IsOnGrid g slot t
      → contains t (starts (with_slot g slot rest)) ≡ true
  round_complete later (zero, p, q, b) =
      let e : t ≡ slot = omega arith in
      let free = subst (λ s. is_bookable (slot_at g s) ≡ true) e b in rw free (ground arith)
  round_complete later (suc k, p, q, b) =
      let rest_has = later (k, omega arith, q, b) in
      elim (Bool-cases (is_bookable (slot_at g slot))) [
        | inl free ↦ rw free (ground arith)
        | inr full ↦ rw full rest_has
      ]

stopped :
    (fuel : ℕ) (g : Grid) (slot : ℕ)
    → leb (slot + g.duration) g.close ≡ false
    → IsExact g slot (slots_in_range (suc fuel) g slot)
unfolding slots_in_range
stopped fuel g slot stop =
    ([], rw stop refl, λ t. (λ h. cc, λ (k, e, le, b). absurd (ground arith)))

continued :
    (fuel : ℕ) (g : Grid) (slot : ℕ)
    → leb (slot + g.duration) g.close ≡ true
    → IsExact g (slot + g.step) (slots_in_range (suc fuel) g (slot + g.step))
    → IsExact g slot (slots_in_range (suc (suc fuel)) g slot)
unfolding slots_in_range
continued fuel g slot go (rest, ends, later) = (
  with_slot g slot rest,
  rw (go, ends) refl,
  λ t. (
    round_sound g slot rest t (ground arith) (later t).0,
    round_complete g slot rest t (later t).1,
  ),
)

-- With a step of a microsecond or more and enough fuel, the loop ends, and its result holds exactly
-- the bookable starts of the grid.
pub slots_in_range-IsExact :
    (fuel : ℕ) (g : Grid) (slot : ℕ)
    → 1 ≤ g.step
    → g.close < fuel + slot
    → IsExact g slot (slots_in_range (suc fuel) g slot)
slots_in_range-IsExact zero g slot p q = stopped zero g slot (ground arith)
slots_in_range-IsExact (suc fuel) g slot p q = elim (Bool-cases (leb (slot + g.duration) g.close)) [
  | inr stop ↦ stopped (suc fuel) g slot stop
  | inl go ↦
      continued fuel g slot go (slots_in_range-IsExact fuel g (slot + g.step) p (omega arith))
]
