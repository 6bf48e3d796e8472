-- ===== src/Scheduling/Sound.antt =====
-- The invariant of Occupancy as a property of the database, and the capacities that the use cases
-- look up.
use schedule_appointments.Base.{
  ℕ, ◌≤◌, ◌≡◌, subst, inl, inr, true, false, Option, List, [], ◌∷◌, map, arith, All, All-map,
  All-tabulate, Bool-cases,
}
use schedule_appointments.Appointment.{Appointment}
use schedule_appointments.Slot.{Candidate, capacity_of, evaluate_slot, is_bookable}
use schedule_appointments.Slot.Spec.{Admits, is_bookable_iff}
use schedule_appointments.Store.Tables.{Db}
use schedule_appointments.Store.Appointments
use schedule_appointments.Store.Services
use schedule_appointments.Store.Services.{contains, capacity_in, capacity_of-capacity_rows}
use schedule_appointments.Scheduling.Book.{service_ids}
use schedule_appointments.Scheduling.Occupancy.{in_scope, IsPlain, IsNotOverbooked, Fits}
use schedule_appointments.Scheduling.Admission.{IsFor, KnowsCapacity, admitted-Fits}

contains_self :
    (xs : List Appointment)
    → All
        (λ (x : Appointment).
          contains x.service_id (map (λ (a : Appointment). a.service_id) xs) ≡ true)
        xs
contains_self [] = tt
contains_self (x ∷ xs) = (ground arith, All-map xs (λ y h. ground arith) (contains_self xs))

-- The capacity map that is fetched for a list of booked appointments has their capacities.
pub map_knows :
    (tenant service : ℕ) (booked : List Appointment) (db : Db)
    → All
        (λ (x : Appointment).
          capacity_of
            (Services.get_capacity_map tenant (service_ids service booked) db)
            x.service_id
          ≡ capacity_in tenant db.services x.service_id)
        booked
unfolding Services.get_capacity_map
map_knows tenant service booked db =
    All-map booked
      (λ x h.
        capacity_of-capacity_rows tenant (service_ids service booked) db.services x.service_id
          (ground arith))
      (contains_self booked)

module _ (tenant business : ℕ) (staff : Option ℕ) where
  -- The rows of a database are not overbooked, by the capacities of its services.
  abbrev pub IsSound : Db → Type 0
  IsSound db =
      IsNotOverbooked tenant business staff (capacity_in tenant db.services) db.appointments

  -- The invariant reads two tables only.
  pub IsSound-same :
      (db db' : Db)
      → db'.services ≡ db.services
      → db'.appointments ≡ db.appointments
      → IsSound db
      → IsSound db'
  IsSound-same db db' p q h = rw (p, q) h

  -- A row outside the view changes nothing in it.
  pub out-Fits :
      (cap : ℕ → ℕ) (a : Appointment) (rows : List Appointment)
      → 1 ≤ a.duration_minutes
      → IsPlain tenant business staff a
      → in_scope tenant business staff a ≡ false
      → Fits tenant business staff cap a rows
  out-Fits cap a rows lasts plain out = record {
    lasts = lasts;
    plain = plain;
    apart = All-tabulate rows (λ x ne. (λ sx sa. cc, λ sa sx. cc));
    seat = λ s t big sa. ground arith;
  }

  -- A row that was evaluated for its own tenant, business and professional, over the rows that the
  -- query gives, fits among the rows of any view.
  pub evaluated-Fits :
      (own_tenant own_business : ℕ) (own_staff : Option ℕ) (c : Candidate) (a : Appointment)
      (db : Db)
      → IsSound db
      → a.tenant_id ≡ own_tenant
      → a.business_id ≡ own_business
      → a.professional_id ≡ own_staff
      → IsFor (capacity_in own_tenant db.services) c a
      → let booked =
          Appointments.list_active_in_range own_tenant own_business c.start c.stop own_staff db in
        All (KnowsCapacity (capacity_in own_tenant db.services) c) booked
        → is_bookable (evaluate_slot c booked) ≡ true
        → IsPlain tenant business staff a
        → Fits tenant business staff (capacity_in tenant db.services) a db.appointments
  evaluated-Fits own_tenant own_business own_staff c a db w et eb es f knows free plain =
      elim (Bool-cases (in_scope tenant business staff a)) [
        | inr out ↦ out-Fits _ a db.appointments f.lasts plain out
        | inl here ↦
            let mine : own_tenant ≡ tenant = ground (arith, et) in
            let ours : own_business ≡ business = ground (arith, eb) in
            let same : Appointments.list_active_in_range own_tenant own_business c.start c.stop
                  own_staff db
                ≡ Appointments.list_active_in_range tenant business c.start c.stop a.professional_id
                    db =
              cc (mine, ours, es) in
            admitted-Fits tenant business staff (capacity_in tenant db.services) c a db w
              (subst (λ t. IsFor (capacity_in t db.services) c a) mine f) plain
              (subst (Admits c) same ((is_bookable_iff c _).0 free))
              (subst (All (KnowsCapacity (capacity_in tenant db.services) c)) same (
                subst
                  (λ t. All (KnowsCapacity (capacity_in t db.services) c) (
                    Appointments.list_active_in_range own_tenant own_business c.start c.stop
                      own_staff db))
                  mine knows))
      ]
