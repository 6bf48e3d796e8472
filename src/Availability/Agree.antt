-- ===== src/Availability/Agree.antt =====
-- The evaluation of a start against the appointments of the whole day is the one that
-- book_appointment.py makes against the appointments of the slot.
use schedule_appointments.Base.{
  All-keep_of, subst, ℕ, ◌+◌, ◌≤◌, ◌≡◌, refl, sym, ◌∙◌, ap, Bool, ◌&&◌, Option, none, List, [], ◌∷◌,
  arith, ltb, keep, any, All, All-map, All-zip,
}
use schedule_appointments.Appointment.{Appointment, ends_at, minutes}
use schedule_appointments.Service.{Service}
use schedule_appointments.Slot.{Candidate, Capacities, capacity_of, evaluate_slot}
use schedule_appointments.Slot.Spec.{blocks, evaluate_slot-closed_form, evaluate_slot-keep}
use schedule_appointments.Store.Tables.{Db}
use schedule_appointments.Store.Appointments
use schedule_appointments.Store.Appointments.{is_selected}
use schedule_appointments.Store.Services
use schedule_appointments.Store.Services.{capacity_in}
use schedule_appointments.Scheduling.{service_ids, slot_of}
use schedule_appointments.Scheduling.Sound.{map_knows}

-- The same slot with other capacities.
abbrev with_caps : Candidate → Capacities → Candidate
with_caps c caps = record c { caps = caps }

any-blocks_caps :
    (c : Candidate) (caps : Capacities) (xs : List Appointment)
    → All (λ (x : Appointment). capacity_of c.caps x.service_id ≡ capacity_of caps x.service_id) xs
    → any (blocks c) xs ≡ any (blocks (with_caps c caps)) xs
any-blocks_caps c caps [] h = refl
any-blocks_caps c caps (x ∷ xs) h = ground (arith, h.0, any-blocks_caps c caps xs h.1)

-- Only the capacities of the services that are booked count.
pub evaluate_slot-caps :
    (c : Candidate) (caps : Capacities) (xs : List Appointment)
    → All (λ (x : Appointment). capacity_of c.caps x.service_id ≡ capacity_of caps x.service_id) xs
    → evaluate_slot c xs ≡ evaluate_slot (with_caps c caps) xs
evaluate_slot-caps c caps xs h =
    rw (evaluate_slot-closed_form c xs, evaluate_slot-closed_form (with_caps c caps) xs)
      (rw (any-blocks_caps c caps xs h) refl)

keep-narrow {ℓ} :
    {A : Type ℓ} (p₁ p₂ p₃ p₄ q : A → Bool) (xs : List A)
    → ((x : A) → (p₁ x && p₂ x) ≡ (p₃ x && (p₄ x && q x)))
    → keep p₂ (keep p₁ xs) ≡ keep q (keep p₄ (keep p₃ xs))
keep-narrow p₁ p₂ p₃ p₄ q [] h = refl
keep-narrow p₁ p₂ p₃ p₄ q (x ∷ xs) h = ground (arith, keep-narrow p₁ p₂ p₃ p₄ q xs h, h x)

module _ (tenant business : ℕ) (professional : Option ℕ) (from to start stop : ℕ) (db : Db) where
  abbrev touches : Appointment → Bool
  touches x = ltb start (ends_at x) && ltb x.scheduled_at stop

  abbrev of_day : List Appointment
  of_day = Appointments.list_active_in_range tenant business from to professional db

  -- The appointments of a slot are those of a longer window that touch the slot.
  narrowed :
      from ≤ start
      → stop ≤ to
      → Appointments.list_active_in_range tenant business start stop professional db
        ≡ keep touches of_day
  unfolding Appointments.list_active_in_range
  narrowed p q =
      keep-narrow (is_selected tenant business stop professional) (λ x. ltb start (ends_at x))
        (is_selected tenant business to professional) (λ x. ltb from (ends_at x)) touches
        db.appointments (λ x. ground arith)

module _ (tenant business : ℕ) (professional : Option ℕ) (from to start : ℕ) (s : Service)
    (db : Db) where
  abbrev all_day : List Appointment
  all_day = Appointments.list_active_in_range tenant business from to professional db

  abbrev stop : ℕ
  stop = start + minutes s.duration_minutes

  abbrev in_slot : List Appointment
  in_slot = Appointments.list_active_in_range tenant business start stop professional db

  abbrev caps_for : List Appointment → Capacities
  caps_for xs = Services.get_capacity_map tenant (service_ids s.id xs) db

  abbrev candidate : List Appointment → Candidate
  candidate xs = record {
    start = start;
    stop = stop;
    service_id = s.id;
    capacity = s.capacity;
    caps = caps_for xs;
    exclude = none;
  }

  -- A slot inside a window of appointments is evaluated alike over the window and over the slot.
  pub evaluate_slot-window :
      from ≤ start
      → stop ≤ to
      → evaluate_slot (candidate all_day) all_day ≡ slot_of tenant s business professional start db
  evaluate_slot-window p q =
      let same = narrowed tenant business professional from to start stop db p q in
      let touching = touches tenant business professional from to start stop db in
      let day_caps = map_knows tenant s.id all_day db in
      let slot_caps = map_knows tenant s.id in_slot db in
      let known =
        subst
          (All (λ (x : Appointment).
            capacity_of (caps_for all_day) x.service_id
            ≡ capacity_in tenant db.services x.service_id))
          (sym same) (All-keep_of _ touching all_day (All-map all_day (λ x e _. e) day_caps)) in
      sym (evaluate_slot-keep (candidate all_day) touching all_day (λ x o. ground arith))
      ∙ ap (evaluate_slot (candidate all_day)) (sym same)
      ∙ evaluate_slot-caps (candidate all_day) (caps_for in_slot) in_slot
          (All-map in_slot (λ x e. e.0 ∙ sym e.1) (All-zip _ _ in_slot known slot_caps))
