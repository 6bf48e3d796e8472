-- ===== src/Scheduling/SoundBook.antt =====
-- A booking does not overbook a business.
use schedule_appointments.Base.{
  ℕ, ◌+◌, ◌≤◌, ◌<◌, ◌≡◌, ◌≢◌, refl, sym, subst, ◌∙◌, inl, inr, Bool, true, false, ◌&&◌, not, Option,
  none, some, arith, ◌==◌, ltb, All, All-map, All-tabulate, All-first, Bool-cases, Option-cases,
}
use schedule_appointments.Errors.{ok, validation, not_assigned}
use schedule_appointments.Appointment
use schedule_appointments.Appointment.{Appointment, minutes}
use schedule_appointments.Service.{Service}
use schedule_appointments.Client
use schedule_appointments.Client.{Client}
use schedule_appointments.Slot.{Candidate, SlotEvaluation, is_bookable}
use schedule_appointments.Store.Tables.{Db, ◌>>=◌}
use schedule_appointments.Store.Ensures.{
  Ensures, Ensures-bind, Ensures-lift, Ensures-require, Ensures-reject_if, Ensures-check,
}
use schedule_appointments.Store.Appointments
use schedule_appointments.Store.Clients
use schedule_appointments.Store.Professionals
use schedule_appointments.Store.Services
use schedule_appointments.Store.Services.{capacity_in}
use schedule_appointments.Scheduling.Book.{
  BookInput, Request, book_appointment, book_new, save_booking, ensure_slot_available, slot_of,
  admit, service_ids, find_or_create_client, booking_of, client_draft, validate_professional,
  validate_input, offered, is_barred, book_for_client,
}
use schedule_appointments.Scheduling.Occupancy.{IsPlain, Fits, add-IsNotOverbooked}
use schedule_appointments.Scheduling.Admission.{IsFor}
use schedule_appointments.Scheduling.Sound.{IsSound, IsSound-same, evaluated-Fits, map_knows}

abbrev candidate_of : ℕ → Service → ℕ → Option ℕ → ℕ → Db → Candidate
candidate_of tenant s business professional start db =
    let stop = start + minutes s.duration_minutes in
    record {
      start = start;
      stop = stop;
      service_id = s.id;
      capacity = s.capacity;
      caps =
          Services.get_capacity_map tenant
            (service_ids s.id
              (Appointments.list_active_in_range tenant business start stop professional db))
            db;
      exclude = none;
    }

-- The row that a booking makes.
abbrev Books : Request → BookInput → Service → ℕ → Appointment → Type 0
Books r i s start a =
    (a.id ≡ r.appointment_id)
    × (a.tenant_id ≡ r.tenant)
    × (a.business_id ≡ i.business_id)
    × (a.service_id ≡ i.service_id)
    × (a.scheduled_at ≡ start)
    × (a.duration_minutes ≡ s.duration_minutes)
    × (a.professional_id ≡ i.professional_id)
    × (1 ≤ a.duration_minutes)

book-Books :
    (r : Request) (i : BookInput) (s : Service) (c : Client) (start : ℕ) (a : Appointment)
    → Appointment.book r.appointment_id r.now (booking_of r i s c start) ≡ ok a
    → Books r i s start a
unfolding Appointment.book
book-Books r i s c start a h = ground arith

pub get_service :
    (tenant id : ℕ) (s : Service) (db : Db)
    → Services.get_by_id tenant id db ≡ some s
    → (s.id ≡ id) × (capacity_in tenant db.services id ≡ s.capacity)
unfolding Services.get_by_id
get_service tenant id s db h =
    let found =
      All-first (λ (_ : Service). Unit {0}) (λ s. s.id == id && s.tenant_id == tenant) db.services h
        (All-tabulate db.services (λ _. tt)) in
    (ground (arith, found.1), ground arith)

-- The check of a slot writes nothing and lets only a bookable slot through.
pub admit-Ensures :
    (capacity : ℕ) (e : SlotEvaluation) (db : Db)
    → Ensures (admit capacity e db) (λ _ db'. (db' ≡ db) × (is_bookable e ≡ true))
admit-Ensures capacity e db = elim (Bool-cases (is_bookable e)) [
  | inl free ↦ rw free (refl, refl)
  | inr full ↦
      rw full
        (elim (Bool-cases (ltb 1 capacity && not e.blocked)) [ inl x ↦ rw x tt | inr x ↦ rw x tt ])
]

pub ensure_slot :
    (tenant : ℕ) (i : BookInput) (s : Service) (start : ℕ) (db : Db)
    → Ensures (ensure_slot_available tenant i s start db) (λ e db'.
      (db' ≡ db) × (is_bookable (slot_of tenant s i.business_id i.professional_id start db) ≡ true))
unfolding ensure_slot_available
ensure_slot tenant i s start db =
    admit-Ensures s.capacity (slot_of tenant s i.business_id i.professional_id start db) db

get_by_id-same :
    (tenant id : ℕ) (db db' : Db)
    → db'.services ≡ db.services
    → Services.get_by_id tenant id db' ≡ Services.get_by_id tenant id db
unfolding Services.get_by_id
get_by_id-same tenant id db db' e = rw e

pub offered-some : (o : Option Service) (s : Service) → offered o ≡ some s → o ≡ some s
offered-some o s h = ground arith

module _ (tenant business : ℕ) (staff : Option ℕ) where
  new-Fits :
      (r : Request) (i : BookInput) (s : Service) (start : ℕ) (db : Db) (a : Appointment)
      → IsSound tenant business staff db
      → Services.get_by_id r.tenant i.service_id db ≡ some s
      → is_bookable (slot_of r.tenant s i.business_id i.professional_id start db) ≡ true
      → Books r i s start a
      → IsPlain tenant business staff a
      → Fits tenant business staff (capacity_in tenant db.services) a db.appointments
  new-Fits r i s start db a w found free b plain =
      evaluated-Fits tenant business staff r.tenant i.business_id i.professional_id c a db w b.1 b.2
        b.6 is_for (All-map _ (λ x e l. subst (λ n. 1 < n) e l) (map_knows r.tenant s.id _ db)) free
        plain
    where
      c : Candidate
      c = candidate_of r.tenant s i.business_id i.professional_id start db

      service : (s.id ≡ i.service_id) × (capacity_in r.tenant db.services i.service_id ≡ s.capacity)
      service = get_service r.tenant i.service_id s db found

      is_for : IsFor (capacity_in r.tenant db.services) c a
      is_for = record {
        start = sym b.4;
        stop = ground (arith, b.4, b.5);
        service = service.0 ∙ sym b.3;
        others = λ id ne. refl;
        capacity = λ _.
            subst (λ k. s.capacity ≡ capacity_in r.tenant db.services k) (sym b.3) (sym service.1);
        lasts = b.7;
      }

  -- What the environment provides for a booking: an id that no row has, and no professional where
  -- all appointments are in view.
  abbrev pub Provides : Request → BookInput → Db → Type 0
  Provides r i db =
      All (λ (x : Appointment). r.appointment_id ≢ x.id) db.appointments
      × (staff ≡ none → r.tenant ≡ tenant → i.business_id ≡ business → i.professional_id ≡ none)

  save_booking-IsSound :
      (r : Request) (i : BookInput) (s : Service) (c : Client) (start : ℕ) (e : SlotEvaluation)
      (db : Db)
      → IsSound tenant business staff db
      → Services.get_by_id r.tenant i.service_id db ≡ some s
      → is_bookable (slot_of r.tenant s i.business_id i.professional_id start db) ≡ true
      → Provides r i db
      → Ensures (save_booking r i s c start e db) (λ _ db'. IsSound tenant business staff db')
  unfolding save_booking Appointments.add Clients.update
  save_booking-IsSound r i s c start e db w found free p =
      Ensures-lift (Appointment.book r.appointment_id r.now (booking_of r i s c start)) _ db _
        λ a made.
          let b = book-Books r i s c start a made in
          add-IsNotOverbooked tenant business staff (capacity_in tenant db.services) a
            db.appointments w
            (subst (λ k. All (λ (x : Appointment). k ≢ x.id) db.appointments) (sym b.0) p.0)
            (new-Fits r i s start db a w found free b
              (λ all t k. b.6 ∙ p.1 all (sym b.1 ∙ t) (sym b.2 ∙ k)))

  book_new-IsSound :
      (r : Request) (i : BookInput) (s : Service) (c : Client) (start : ℕ) (db : Db)
      → IsSound tenant business staff db
      → Services.get_by_id r.tenant i.service_id db ≡ some s
      → Provides r i db
      → Ensures (book_new r i s c start db) (λ _ db'. IsSound tenant business staff db')
  unfolding book_new
  book_new-IsSound r i s c start db w found p =
      Ensures-bind (ensure_slot_available r.tenant i s start) (save_booking r i s c start) db
        (λ e db'.
          (db' ≡ db)
          × (is_bookable (slot_of r.tenant s i.business_id i.professional_id start db) ≡ true))
        (λ _ db'. IsSound tenant business staff db') (ensure_slot r.tenant i s start db)
        (λ e db' h.
          subst
            (λ d.
              Ensures (save_booking r i s c start e d) (λ _ db'. IsSound tenant business staff db'))
            (sym h.0) (save_booking-IsSound r i s c start e db w found h.1 p))

  -- Looking up or creating the client leaves the appointments and the services alone.
  client-IsSound :
      (r : Request) (i : BookInput) (db : Db)
      → Ensures
          (find_or_create_client r i db)
          (λ _ db'. (db'.services ≡ db.services) × (db'.appointments ≡ db.appointments))
  unfolding find_or_create_client Clients.add
  client-IsSound r i db =
      elim (Option-cases (Clients.get_by_whatsapp r.tenant i.client_whatsapp db)) [
        | inl missing ↦ rw missing (
            Ensures-lift (Client.create r.client_id r.now (client_draft r.tenant i)) _ db _
              (λ c _. (refl, refl)))
        | inr (c, found) ↦ rw found (refl, refl)
      ]

  pub professional-Ensures :
      (knows_staff : Bool) (i : BookInput) (s : Service) (p : Option ℕ) (rt : ℕ) (db : Db)
      → Ensures (validate_professional knows_staff rt i s p db) (λ _ db'. db' ≡ db)
  professional-Ensures knows_staff i s none rt db = refl
  professional-Ensures false i s (some p) rt db = refl
  professional-Ensures true i s (some id) rt db =
      Ensures-require (Professionals.get_by_id rt id db) _ _ db _ λ p _.
        Ensures-reject_if (not (p.business_id == i.business_id)) _ _ db _ λ _.
          Ensures-reject_if (not p.is_active) _ _ db _ λ _.
            Ensures-check (is_barred (Services.list_professional_ids rt s.id db) id)
              (validation not_assigned) db (λ _ db'. db' ≡ db) (λ _. refl)

  Provides-same :
      (r : Request) (i : BookInput) (db db' : Db)
      → db'.appointments ≡ db.appointments
      → Provides r i db
      → Provides r i db'
  Provides-same r i db db' q p =
      (subst (All (λ (x : Appointment). r.appointment_id ≢ x.id)) (sym q) p.0, p.1)

  book_for_client-IsSound :
      (r : Request) (i : BookInput) (s : Service) (start : ℕ) (c : Client) (db : Db)
      → IsSound tenant business staff db
      → Services.get_by_id r.tenant i.service_id db ≡ some s
      → Provides r i db
      → Ensures (book_for_client r i s start c db) (λ _ db'. IsSound tenant business staff db')
  book_for_client-IsSound r i s start c db w found p =
      elim (Option-cases (Appointments.get_active_for_client_at r.tenant c.id s.id start db)) [
        | inl new ↦ rw new (book_new-IsSound r i s c start db w found p)
        | inr (a, old) ↦ rw old w
      ]

  served-IsSound :
      (r : Request) (i : BookInput) (s : Service) (start : ℕ) (db : Db)
      → IsSound tenant business staff db
      → Services.get_by_id r.tenant i.service_id db ≡ some s
      → Provides r i db
      → Ensures
          ((find_or_create_client r i >>= book_for_client r i s start) db)
          (λ _ db'. IsSound tenant business staff db')
  served-IsSound r i s start db w found p =
      Ensures-bind (find_or_create_client r i) (book_for_client r i s start) db
        (λ _ db'. (db'.services ≡ db.services) × (db'.appointments ≡ db.appointments))
        (λ _ db'. IsSound tenant business staff db') (client-IsSound r i db)
        λ c db' same.
          book_for_client-IsSound r i s start c db'
            (IsSound-same tenant business staff db db' same.0 same.1 w)
            (get_by_id-same r.tenant i.service_id db db' same.0 ∙ found)
            (Provides-same r i db db' same.1 p)

  -- A booking, whatever it answers, leaves the rows not overbooked.
  pub book_appointment-IsSound :
      (knows_staff : Bool) (r : Request) (i : BookInput) (db : Db)
      → IsSound tenant business staff db
      → Provides r i db
      → Ensures (book_appointment knows_staff r i db) (λ _ db'. IsSound tenant business staff db')
  unfolding book_appointment
  book_appointment-IsSound knows_staff r i db w p =
      Ensures-lift (validate_input i) _ db _ λ start _.
        Ensures-require (offered (Services.get_by_id r.tenant i.service_id db)) _ _ db _ λ s found.
          Ensures-reject_if (not (s.business_id == i.business_id)) _ _ db _ λ _.
            Ensures-bind (validate_professional knows_staff r.tenant i s i.professional_id)
              (λ _. find_or_create_client r i >>= book_for_client r i s start) db
              (λ _ db'. db' ≡ db) (λ _ db'. IsSound tenant business staff db')
              (professional-Ensures knows_staff i s i.professional_id r.tenant db)
              (λ _ db' same.
                subst
                  (λ d.
                    Ensures ((find_or_create_client r i >>= book_for_client r i s start) d)
                      (λ _ db'. IsSound tenant business staff db'))
                  (sym same) (served-IsSound r i s start db w (offered-some _ s found) p))
