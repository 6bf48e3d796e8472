-- ===== src/Scheduling/SoundMove.antt =====
-- Moving, cancelling and completing an appointment do not overbook a business.
use schedule_appointments.Base.{
  ℕ, ◌+◌, ◌≤◌, ◌<◌, ◌≡◌, sym, subst, ◌∙◌, inl, inr, Bool, true, false, ◌&&◌, Option, none, some,
  List, arith, ◌==◌, first, All, All-map, All-tabulate, All-first, Option-cases,
}
use schedule_appointments.Base.Int.{ℤ}
use schedule_appointments.Base.Text.{Text}
use schedule_appointments.Base.Clock.{DateTime}
use schedule_appointments.Errors.{ok}
use schedule_appointments.Appointment
use schedule_appointments.Appointment.{Appointment, minutes}
use schedule_appointments.Slot.{Candidate, SlotEvaluation, capacity_of, is_bookable}
use schedule_appointments.Store.Tables.{Db}
use schedule_appointments.Store.Ensures.{
  Ensures, Ensures-bind, Ensures-lift, Ensures-require, Ensures-reject_if,
}
use schedule_appointments.Store.Appointments
use schedule_appointments.Store.Services
use schedule_appointments.Store.Services.{capacity_in}
use schedule_appointments.Scheduling.Book.{admit}
use schedule_appointments.Scheduling.Move.{
  reschedule_appointment, new_slot_of, changed, known_capacity, known_capacities, save_move,
  aware_start,
}
use schedule_appointments.Scheduling.Close.{cancel_appointment, complete_appointment, noted}
use schedule_appointments.Scheduling.Occupancy.{IsPlain, Fits, update-IsNotOverbooked}
use schedule_appointments.Scheduling.Admission.{IsFor}
use schedule_appointments.Scheduling.SoundBook.{admit-Ensures}
use schedule_appointments.Scheduling.Sound.{IsSound, out-Fits, evaluated-Fits, map_knows}

known-capacity :
    (knows_services : Bool) (tenant service : ℕ) (db : Db)
    → let capacity = known_capacity knows_services (Services.lock_for_update tenant service db) in
      1 < capacity → capacity ≡ capacity_in tenant db.services service
unfolding Services.lock_for_update
known-capacity true tenant service db big =
    elim (Option-cases (first (λ s. s.id == service && s.tenant_id == tenant) db.services)) [
      | inl missing ↦ rw missing
      | inr (s, found) ↦ rw found
    ]
known-capacity false tenant service db big = absurd (omega arith)

known-capacities :
    (knows_services : Bool) (tenant service : ℕ) (booked : List Appointment) (db : Db)
    → All
        (λ (x : Appointment).
          1 < capacity_of (known_capacities knows_services tenant service booked db) x.service_id
          → 1 < capacity_in tenant db.services x.service_id)
        booked
unfolding capacity_of
known-capacities true tenant service booked db =
    All-map booked (λ x e l. subst (λ n. 1 < n) e l) (map_knows tenant service booked db)
known-capacities false tenant service booked db = All-tabulate booked (λ x l. absurd (omega arith))

-- What a use case changes of a row it loads: neither its keys nor its length.
abbrev Keeps : Appointment → Appointment → Type 0
Keeps a b =
    (b.id ≡ a.id)
    × (b.tenant_id ≡ a.tenant_id)
    × (b.business_id ≡ a.business_id)
    × (b.service_id ≡ a.service_id)
    × (b.duration_minutes ≡ a.duration_minutes)
    × (b.professional_id ≡ a.professional_id)

reschedule-Keeps :
    (start now : ℕ) (a b : Appointment)
    → changed (Appointment.reschedule start none now a) ≡ ok b
    → Keeps a b × (b.scheduled_at ≡ start)
unfolding Appointment.reschedule
reschedule-Keeps start now a b h = ground arith

cancel-Keeps :
    (reason : Option Text) (now : ℕ) (a b : Appointment)
    → changed (Appointment.cancel reason now a) ≡ ok b
    → Keeps a b × (Appointments.is_live b.status ≡ false)
unfolding Appointment.cancel
cancel-Keeps reason now a b h = ground arith

complete-Keeps :
    (amount : ℤ) (note : Option Text) (now : ℕ) (a b : Appointment)
    → changed (Appointment.complete amount now a) ≡ ok b
    → Keeps a (noted note b) × (Appointments.is_live (noted note b).status ≡ false)
unfolding Appointment.complete
complete-Keeps amount none now a b h = ground arith
complete-Keeps amount (some n) now a b h = ground arith

module _ (tenant business : ℕ) (staff : Option ℕ) where
  -- What the invariant says of a row that a use case loads.
  loaded :
      (own id : ℕ) (a : Appointment) (db : Db)
      → IsSound tenant business staff db
      → Appointments.get_by_id own id db ≡ some a
      → (1 ≤ a.duration_minutes) × IsPlain tenant business staff a × (a.tenant_id ≡ own)
  unfolding Appointments.get_by_id
  loaded own id a db w found =
      let l =
        All-first (λ (x : Appointment). 1 ≤ x.duration_minutes)
          (λ a. a.id == id && a.tenant_id == own) db.appointments found w.lasts in
      let p =
        All-first (IsPlain tenant business staff) (λ a. a.id == id && a.tenant_id == own)
          db.appointments found w.plain in
      (l.0, p.0, ground (arith, l.1))

  updated-IsSound :
      (db : Db) (b : Appointment)
      → IsSound tenant business staff db
      → Fits tenant business staff (capacity_in tenant db.services) b db.appointments
      → IsSound tenant business staff (Appointments.update b db)
  unfolding Appointments.update
  updated-IsSound db b w f =
      update-IsNotOverbooked tenant business staff (capacity_in tenant db.services) b
        db.appointments w f

  Keeps-IsPlain :
      (a b : Appointment)
      → Keeps a b
      → IsPlain tenant business staff a
      → IsPlain tenant business staff b
  Keeps-IsPlain a b k plain all t e = k.5 ∙ plain all (sym k.1 ∙ t) (sym k.2 ∙ e)

  -- A row that is no longer live.
  closed-IsSound :
      (db : Db) (a b : Appointment)
      → IsSound tenant business staff db
      → (1 ≤ a.duration_minutes) × IsPlain tenant business staff a
      → Keeps a b
      → Appointments.is_live b.status ≡ false
      → IsSound tenant business staff (Appointments.update b db)
  closed-IsSound db a b w l k dead = updated-IsSound db b w (
      out-Fits tenant business staff _ b db.appointments (omega (arith, k.4, l.0))
        (Keeps-IsPlain a b k l.1) (ground arith))

  moved-IsSound :
      (knows_services : Bool) (own start : ℕ) (a b : Appointment) (db : Db)
      → IsSound tenant business staff db
      → (1 ≤ a.duration_minutes) × IsPlain tenant business staff a × (a.tenant_id ≡ own)
      → is_bookable (new_slot_of knows_services own a start db) ≡ true
      → Keeps a b × (b.scheduled_at ≡ start)
      → IsSound tenant business staff (Appointments.update b db)
  moved-IsSound knows_services own start a b db w l free k = updated-IsSound db b w (
      evaluated-Fits tenant business staff own a.business_id a.professional_id c b db w
        (k.0.1 ∙ l.2) k.0.2 k.0.5 is_for (known-capacities knows_services own a.service_id xs db)
        free (Keeps-IsPlain a b k.0 l.1))
    where
      xs : List Appointment
      xs =
          Appointments.list_active_in_range own a.business_id start
            (start + minutes a.duration_minutes) a.professional_id db

      c : Candidate
      c = record {
        start = start;
        stop = start + minutes a.duration_minutes;
        service_id = a.service_id;
        capacity = known_capacity knows_services (Services.lock_for_update own a.service_id db);
        caps = known_capacities knows_services own a.service_id xs db;
        exclude = some a.id;
      }

      is_for : IsFor (capacity_in own db.services) c b
      is_for = record {
        start = sym k.1;
        stop = ground (arith, k.1, k.0.4);
        service = sym k.0.3;
        others = λ id ne. ground (arith, k.0.0);
        capacity = λ big.
            subst (λ s. c.capacity ≡ capacity_in own db.services s) (sym k.0.3)
              (known-capacity knows_services own a.service_id db big);
        lasts = omega (arith, k.0.4, l.0);
      }

  save_move-IsSound :
      (knows_services : Bool) (own now capacity start : ℕ) (a : Appointment) (e : SlotEvaluation)
      (db : Db)
      → IsSound tenant business staff db
      → (1 ≤ a.duration_minutes) × IsPlain tenant business staff a × (a.tenant_id ≡ own)
      → is_bookable (new_slot_of knows_services own a start db) ≡ true
      → Ensures (save_move now capacity start a e db) (λ _ db'. IsSound tenant business staff db')
  unfolding save_move
  save_move-IsSound knows_services own now capacity start a e db w l free =
      Ensures-lift (changed (Appointment.reschedule start none now a)) _ db _ λ b made.
        moved-IsSound knows_services own start a b db w l free (reschedule-Keeps start now a b made)

  -- A move to another time, whatever it answers, leaves the rows not overbooked.
  pub reschedule_appointment-IsSound :
      (knows_services : Bool) (own now id : ℕ) (new_start : DateTime) (db : Db)
      → IsSound tenant business staff db
      → Ensures
          (reschedule_appointment knows_services own now id new_start db)
          (λ _ db'. IsSound tenant business staff db')
  unfolding reschedule_appointment
  reschedule_appointment-IsSound knows_services own now id new_start db w =
      Ensures-lift (aware_start new_start) _ db _ λ start _.
        Ensures-require (Appointments.get_by_id own id db) _ _ db _ λ a found.
          let capacity =
            known_capacity knows_services (Services.lock_for_update own a.service_id db) in
          let e = new_slot_of knows_services own a start db in
          Ensures-bind (admit capacity e) (save_move now capacity start a) db
            (λ _ db'. (db' ≡ db) × (is_bookable e ≡ true))
            (λ _ db'. IsSound tenant business staff db') (admit-Ensures capacity e db)
            (λ ready db' h.
              subst
                (λ d.
                  Ensures (save_move now capacity start a ready d)
                    (λ _ db'. IsSound tenant business staff db'))
                (sym h.0)
                (save_move-IsSound knows_services own now capacity start a ready db w
                  (loaded own id a db w found) h.1))

  -- So does a cancellation.
  pub cancel_appointment-IsSound :
      (own now id : ℕ) (reason : Option Text) (db : Db)
      → IsSound tenant business staff db
      → Ensures
          (cancel_appointment own now id reason db)
          (λ _ db'. IsSound tenant business staff db')
  unfolding cancel_appointment
  cancel_appointment-IsSound own now id reason db w =
      Ensures-require (Appointments.get_by_id own id db) _ _ db _ λ a found.
        Ensures-lift (changed (Appointment.cancel reason now a)) _ db _ λ b made.
          let k = cancel-Keeps reason now a b made in
          let l = loaded own id a db w found in closed-IsSound db a b w (l.0, l.1) k.0 k.1

  -- So does closing an appointment with what was charged.
  pub complete_appointment-IsSound :
      (own now id : ℕ) (amount : ℤ) (note : Option Text) (db : Db)
      → IsSound tenant business staff db
      → Ensures
          (complete_appointment own now id amount note db)
          (λ _ db'. IsSound tenant business staff db')
  unfolding complete_appointment
  complete_appointment-IsSound own now id amount note db w =
      Ensures-require (Appointments.get_by_id own id db) _ _ db _ λ a found.
        Ensures-reject_if (Appointment.is_completed a.status) _ _ db _ λ _.
          Ensures-lift (changed (Appointment.complete amount now a)) _ db _ λ b made.
            let k = complete-Keeps amount note now a b made in
            let l = loaded own id a db w found in
            closed-IsSound db a (noted note b) w (l.0, l.1) k.0 k.1
