-- ===== src/Availability/Offered.antt =====
-- What get_available_slots.py offers.
use native.Mathlib.Nat.{le_trans}
use schedule_appointments.Base.{
  ℕ, suc, ◌+◌, ◌*◌, ◌≤◌, ◌≡◌, refl, sym, subst, ◌↔◌, ◌⊎◌, inl, inr, true, ◌||◌, Option, some, List,
  [], ◌∷◌, ◌++◌, arith, All, or_else, Bool-cases,
}
use schedule_appointments.Base.Clock.{days}
use schedule_appointments.Base.Text.{Text}
use schedule_appointments.Errors.{ok}
use schedule_appointments.Appointment.{minutes}
use schedule_appointments.Service.{Service}
use schedule_appointments.Hours.{BusinessHour}
use schedule_appointments.Slot.{is_bookable}
use schedule_appointments.Store.Tables.{Db}
use schedule_appointments.Store.Services
use schedule_appointments.Store.Services.{contains}
use schedule_appointments.Scheduling.{slot_of}
use schedule_appointments.Scheduling.SoundBook.{get_service}
use schedule_appointments.Availability.{
  SlotsInput, SlotsOutput, SlotAvailability, Grid, slots_in_range, all_slots, step_of, on_minute,
  grid_of, open_ranges, output_of, slots_of_service, get_available_slots, slot_at,
}
use schedule_appointments.Availability.Loop.{starts, IsOnGrid, slots_in_range-IsExact}
use schedule_appointments.Availability.Agree.{evaluate_slot-window}

-- Some element satisfies `P`.
abbrev pub Some {ℓ} : {A : Type ℓ} → (A → Type 0) → List A → Type 0
Some P [] = ⊥
Some P (x ∷ xs) = P x ⊎ Some P xs

Some-map {ℓ} :
    {A : Type ℓ} {P Q R : A → Type 0} (xs : List A)
    → All R xs
    → ((x : A) → R x → P x → Q x)
    → Some P xs
    → Some Q xs
Some-map [] r f h = absurd h
Some-map (x ∷ xs) r f (inl p) = inl (f x r.0 p)
Some-map (x ∷ xs) r f (inr p) = inr (Some-map xs r.1 f p)

contains-append :
    (t : ℕ) (xs ys : List SlotAvailability)
    → contains t (starts (xs ++ ys)) ≡ (contains t (starts xs) || contains t (starts ys))
contains-append t [] ys = refl
contains-append t (x ∷ xs) ys = ground (arith, contains-append t xs ys)

module _ (utc : ℕ → ℕ) (date : ℕ) (g : Grid) where
  abbrev open_at : BusinessHour → ℕ
  open_at h = utc (on_minute date h.open_at)

  abbrev close_at : BusinessHour → ℕ
  close_at h = utc (on_minute date h.close_at)

  abbrev InRange : ℕ → BusinessHour → Type 0
  InRange t h = IsOnGrid (record g { close = close_at h }) (open_at h) t

  all_slots-cons :
      (h : BusinessHour) (hs : List BusinessHour) (xs ys : List SlotAvailability)
      → slots_in_range (suc (suc (close_at h))) (record g { close = close_at h }) (open_at h)
        ≡ some xs
      → all_slots utc date g hs ≡ some ys
      → all_slots utc date g (h ∷ hs) ≡ some (xs ++ ys)
  unfolding all_slots
  all_slots-cons h hs xs ys p q = rw (all_slots, p, q) refl

  all_slots-exact :
      (hs : List BusinessHour)
      → 1 ≤ g.step
      → (xs : List SlotAvailability) × (all_slots utc date g hs ≡ some xs)
        × ((t : ℕ) → (contains t (starts xs) ≡ true) ↔ Some (InRange t) hs)
  unfolding all_slots
  all_slots-exact [] p = ([], refl, λ t. (λ h. cc, λ h. absurd h))
  all_slots-exact (h ∷ hs) p =
      let (xs, ends, here) =
        slots_in_range-IsExact (suc (close_at h)) (record g { close = close_at h }) (open_at h) p
          (omega arith) in
      let (ys, end, there) = all_slots-exact hs p in
      (xs ++ ys, all_slots-cons h hs xs ys ends end, λ t. joined xs ys t (here t) (there t))
    where
      joined :
          (xs ys : List SlotAvailability) (t : ℕ)
          → ((contains t (starts xs) ≡ true) ↔ InRange t h)
          → ((contains t (starts ys) ≡ true) ↔ Some (InRange t) hs)
          → (contains t (starts (xs ++ ys)) ≡ true) ↔ Some (InRange t) (h ∷ hs)
      joined xs ys t a b = (
        λ c. elim (Bool-cases (contains t (starts xs))) [
          | inl e ↦ inl (a.0 e)
          | inr e ↦ inr (b.0 (ground (arith, contains-append t xs ys)))
        ],
        elim [
          | inl r ↦ ground (arith, contains-append t xs ys, a.1 r)
          | inr r ↦ ground (arith, contains-append t xs ys, b.1 r)
        ],
      )

-- A conversion of local moments puts the open ranges of a date inside its day.
abbrev pub IsWithin : (ℕ → ℕ) → ℕ → BusinessHour → Type 0
IsWithin utc date h =
    (utc (days date) ≤ utc (on_minute date h.open_at))
    × (utc (on_minute date h.close_at) ≤ utc (days date + 86_399_000_000))

module _ (utc : ℕ → ℕ) (tenant : ℕ) (i : SlotsInput) (s : Service) (db : Db) where
  -- A start of an open range: a whole number of steps after its opening, with the service done by
  -- its closing time, in a slot that the check of a booking accepts.
  abbrev pub IsFree : ℕ → BusinessHour → Type 0
  IsFree t h =
      (k : ℕ) × (t ≡ utc (on_minute i.on_date h.open_at) + k * step_of s)
      × (t + minutes s.duration_minutes ≤ utc (on_minute i.on_date h.close_at))
      × (is_bookable (slot_of tenant s i.business_id i.professional_id t db) ≡ true)

  same_evaluation :
      (t : ℕ) (h : BusinessHour)
      → s.id ≡ i.service_id
      → IsWithin utc i.on_date h
      → utc (on_minute i.on_date h.open_at) ≤ t
      → t + minutes s.duration_minutes ≤ utc (on_minute i.on_date h.close_at)
      → slot_at (grid_of utc tenant i s db) t
        ≡ slot_of tenant s i.business_id i.professional_id t db
  same_evaluation t h e w p q =
      subst
        (λ k.
          slot_at (record (grid_of utc tenant (record i { service_id = k }) s db) { close = 0 }) t
          ≡ slot_of tenant s i.business_id i.professional_id t db)
        e
        (evaluate_slot-window tenant i.business_id i.professional_id (utc (days i.on_date))
          (utc (days i.on_date + 86_399_000_000)) t s db (le_trans w.0 p) (le_trans q w.1))

  IsFree-iff :
      (t : ℕ) (h : BusinessHour)
      → s.id ≡ i.service_id
      → IsWithin utc i.on_date h
      → InRange utc i.on_date (grid_of utc tenant i s db) t h ↔ IsFree t h
  IsFree-iff t h e w = (
    λ (k, p, q, b).
        (k, p, q, subst (λ v. is_bookable v ≡ true) (same_evaluation t h e w (omega arith) q) b),
    λ (k, p, q, b). (
      k,
      p,
      q,
      subst (λ v. is_bookable v ≡ true) (sym (same_evaluation t h e w (omega arith) q)) b,
    ),
  )

step_of-pos : (s : Service) → 1 ≤ s.duration_minutes → 1 ≤ step_of s
step_of-pos s p = ground arith

answered :
    (zones : Text → Option (ℕ → ℕ)) (tenant : ℕ) (i : SlotsInput) (s : Service) (db : Db)
    (detail : List SlotAvailability)
    → Services.get_by_id tenant i.service_id db ≡ some s
    → let utc = or_else (zones i.business_timezone) (λ t. t) in
      all_slots utc i.on_date (grid_of utc tenant i s db) (open_ranges tenant i db) ≡ some detail
      → get_available_slots zones tenant i db ≡ some (ok (output_of i s detail))
unfolding get_available_slots
answered zones tenant i s db detail found ends =
    rw (get_available_slots, found, slots_of_service, ends) refl

-- The search for the slots of a service that lasts a minute or more ends, and offers exactly these
-- starts: those of the open ranges of the weekday, in steps of 15 minutes or, for a class, of its
-- length, whose slot ends by the closing time and is bookable by the evaluation of its occupancy that
-- a booking makes too. It is assumed that the time zone puts the open ranges inside the local day.
pub offered_iff :
    (zones : Text → Option (ℕ → ℕ)) (tenant : ℕ) (i : SlotsInput) (s : Service) (db : Db)
    → Services.get_by_id tenant i.service_id db ≡ some s
    → 1 ≤ s.duration_minutes
    → let utc = or_else (zones i.business_timezone) (λ t. t) in
      All (IsWithin utc i.on_date) (open_ranges tenant i db)
      → (out : SlotsOutput) × (get_available_slots zones tenant i db ≡ some (ok out))
        × ((t : ℕ)
            → (contains t out.slots ≡ true)
              ↔ Some
                  (IsFree (or_else (zones i.business_timezone) (λ t. t)) tenant i s db t)
                  (open_ranges tenant i db))
offered_iff zones tenant i s db found lasts within =
    let utc = or_else (zones i.business_timezone) (λ t. t) in
    let grid = grid_of utc tenant i s db in
    let ranges = open_ranges tenant i db in
    let e = (get_service tenant i.service_id s db found).0 in
    let (detail, ends, exact) = all_slots-exact utc i.on_date grid ranges (step_of-pos s lasts) in
    (
      output_of i s detail,
      answered zones tenant i s db detail found ends,
      λ t. (
        λ c.
            Some-map ranges within (λ h w r. (IsFree-iff utc tenant i s db t h e w).0 r)
              ((exact t).0 c),
        λ f.
            (exact t).1
              (Some-map ranges within (λ h w r. (IsFree-iff utc tenant i s db t h e w).1 r) f),
      ),
    )
